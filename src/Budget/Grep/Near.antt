-- ===== src/Budget/Grep/Near.antt =====
-- Which lines the filter keeps: those within `context` lines of a match, in their order.
use execkit.Base.{
  ℕ, zero, suc, ◌+◌, ◌-◌, ◌^◌, ◌≤◌, ◌<◌, ◌≡◌, refl, ap, ◌∙◌, inl, inr, min, Bool, true, false, ◌||◌,
  ◌&&◌, List, [], ◌∷◌, ltb, leb, within, length, map, get_or, any, ◌==◌, arith, Bool-cases, subst,
  leb→le, ltb→le, ltb→lt,
}
use execkit.Text.Chars.{Text}
use execkit.Budget.Grep.{saturating_add, mark, mark_lines, set_positions, grep_keep_indices}

abbrev pub has : List ℕ → ℕ → Bool
has ks k = any (λ j. j == k) ks

-- A matching line stands within `context` lines of line `k`; the first line stands at `i`.
abbrev pub near : (Text → Bool) → ℕ → ℕ → ℕ → List Text → Bool
near re context k i [] = false
near re context k i (line ∷ lines) =
    (re line && (leb i (k + context) && leb k (i + context))) || near re context k (i + 1) lines

get-mark :
    (lo hi i k : ℕ) (fs : List Bool)
    → get_or (mark lo hi i fs) k false
      ≡ (get_or fs k false || (ltb k (length fs) && within lo hi (i + k)))
unfolding mark
get-mark lo hi i k [] = ground arith
get-mark lo hi i zero (f ∷ fs) = ground arith
get-mark lo hi i (suc k) (f ∷ fs) =
    let e : i + suc k ≡ i + 1 + k = omega arith in
    let lt : ltb (suc k) (suc (length fs)) ≡ ltb k (length fs) = ground arith in
    rw (e, lt) (get-mark lo hi (i + 1) k fs)

length-mark : (lo hi i : ℕ) (fs : List Bool) → length (mark lo hi i fs) ≡ length fs
unfolding mark
length-mark lo hi i [] = refl
length-mark lo hi i (f ∷ fs) = ap suc (length-mark lo hi (i + 1) fs)

-- The window of one match, below the number of lines `n`.
window_of :
    (i k n context : ℕ)
    → i < n
    → k < n
    → n < 2 ^ 64
    → within (i - context) (min (saturating_add i context) (n - 1)) k
      ≡ (leb i (k + context) && leb k (i + context))
unfolding saturating_add
window_of i k n context hi hk hn = ground arith

module _ (re : Text → Bool) (context : ℕ) where
  length-mark_lines :
      (n i : ℕ) (lines : List Text) (fs : List Bool)
      → length (mark_lines re context n i lines fs) ≡ length fs
  unfolding mark_lines
  length-mark_lines n i [] fs = refl
  length-mark_lines n i (line ∷ lines) fs = elim (Bool-cases (re line)) [
    | inl e ↦
        rw (e, length-mark_lines n (i + 1) lines _)
          (length-mark (i - context) (min (saturating_add i context) (n - 1)) 0 fs)
    | inr e ↦ rw e (length-mark_lines n (i + 1) lines fs)
  ]

  get-mark_lines :
      (n i k : ℕ) (lines : List Text) (fs : List Bool)
      → length fs ≡ n
      → i + length lines ≡ n
      → k < n
      → n < 2 ^ 64
      → get_or (mark_lines re context n i lines fs) k false
        ≡ (get_or fs k false || near re context k i lines)
  unfolding mark_lines
  get-mark_lines n i k [] fs hf hi hk hn = ground arith
  get-mark_lines n i k (line ∷ lines) fs hf hi hk hn = elim (Bool-cases (re line)) [
    | inl e ↦
        let fs' = mark (i - context) (min (saturating_add i context) (n - 1)) 0 fs in
        let ih =
          get-mark_lines n (i + 1) k lines fs'
            (length-mark (i - context) (min (saturating_add i context) (n - 1)) 0 fs ∙ hf)
            (omega arith) hk hn in
        let here = get-mark (i - context) (min (saturating_add i context) (n - 1)) 0 k fs in
        let lt : ltb k (length fs) ≡ true = ground arith in
        let at : 0 + k ≡ k = omega arith in
        rw (e, ih, here, lt, at, window_of i k n context (omega arith) hk hn) (ground arith)
    | inr e ↦ rw (e, get-mark_lines n (i + 1) k lines fs hf (omega arith) hk hn)
  ]

has-set_positions :
    (i k : ℕ) (fs : List Bool) → has (set_positions i fs) k ≡ (leb i k && get_or fs (k - i) false)
unfolding set_positions
has-set_positions i k [] = ground arith
has-set_positions i k (f ∷ fs) = elim (Bool-cases (leb (suc i) k)) [
  | inl e ↦
      let at : k - i ≡ suc (k - (i + 1)) = omega (arith, leb→le (suc i) k e) in
      let ih = has-set_positions (i + 1) k fs in
      elim (Bool-cases f) [
        | inl ef ↦ rw (ef, ih, at) (ground arith)
        | inr ef ↦ rw (ef, ih, at) (ground arith)
      ]
  | inr e ↦
      let at : k - i ≡ 0 = ground arith in
      let ih = has-set_positions (i + 1) k fs in
      elim (Bool-cases f) [
        | inl ef ↦ rw (ef, ih, at) (ground arith)
        | inr ef ↦ rw (ef, ih, at) (ground arith)
      ]
]

-- Strictly increasing, from `lo` on and below `hi`.
abbrev pub Rising : ℕ → ℕ → List ℕ → Type 0
Rising lo hi [] = Unit {0}
Rising lo hi (k ∷ ks) = (lo ≤ k) × (k < hi) × Rising (suc k) hi ks

pub Rising-weaken : (lo lo' hi : ℕ) (ks : List ℕ) → lo ≤ lo' → Rising lo' hi ks → Rising lo hi ks
Rising-weaken lo lo' hi [] h r = tt
Rising-weaken lo lo' hi (k ∷ ks) h r = (omega (arith, r.0), r.1, r.2)

set_positions-Rising :
    (i n : ℕ) (fs : List Bool) → i + length fs ≤ n → Rising i n (set_positions i fs)
unfolding set_positions
set_positions-Rising i n [] h = tt
set_positions-Rising i n (f ∷ fs) h =
    let e : i + 1 ≡ suc i = omega arith in
    let ih =
      subst (λ j. Rising j n (set_positions j fs)) e
        (set_positions-Rising (i + 1) n fs (omega arith)) in
    elim (Bool-cases f) [
      | inl ef ↦ rw (ef, e) (omega arith, omega arith, ih)
      | inr ef ↦ rw (ef, e) (Rising-weaken i (suc i) n (set_positions (suc i) fs) (omega arith) ih)
    ]

false_lines : (content : List Text) (k : ℕ) → get_or (map (λ _. false) content) k false ≡ false
false_lines [] k = refl
false_lines (c ∷ content) zero = refl
false_lines (c ∷ content) (suc k) = false_lines content k

length-map : (content : List Text) → length (map (λ _. false) content) ≡ length content
length-map [] = refl
length-map (c ∷ content) = ap suc (length-map content)

get_or-ge : (fs : List Bool) (k : ℕ) (d : Bool) → length fs ≤ k → get_or fs k d ≡ d
get_or-ge [] k d h = refl
get_or-ge (f ∷ fs) zero d h = absurd (omega arith)
get_or-ge (f ∷ fs) (suc k) d h = get_or-ge fs k d (omega arith)

-- For fewer than 2^64 lines: the filter keeps exactly the lines that stand within `context` lines of a
-- match, at most once each and in their order, whatever `context` is (also where `i + context` would
-- pass the machine's range).
pub grep_keep_indices_lem :
    (content : List Text) (re : Text → Bool) (context : ℕ)
    → length content < 2 ^ 64
    → ((k : ℕ)
        → has (grep_keep_indices content re context) k
          ≡ (ltb k (length content) && near re context k 0 content))
      × Rising 0 (length content) (grep_keep_indices content re context)
unfolding grep_keep_indices
grep_keep_indices_lem content re context h =
    let n = length content in
    let fs = map (λ _. false) content in
    let marked = mark_lines re context n 0 content fs in
    let len : length marked ≡ n =
      length-mark_lines re context n 0 content fs ∙ length-map content in
    let found : (k : ℕ)
        → has (set_positions 0 marked) k ≡ (ltb k n && near re context k 0 content) =
      λ k.
        let at : k - 0 ≡ k = omega arith in
        elim (Bool-cases (ltb k n)) [
          | inl e ↦
              let hit =
                get-mark_lines re context n 0 k content fs (length-map content) (omega arith)
                  (ltb→lt k n e) h in
              rw (has-set_positions 0 k marked, at, hit, false_lines content k, e) (ground arith)
          | inr e ↦
              let out = get_or-ge marked k false (ltb→le k (length marked) (rw len e)) in
              rw (has-set_positions 0 k marked, at, out, e) (ground arith)
        ] in
    (found, set_positions-Rising 0 n marked (omega (arith, len)))
