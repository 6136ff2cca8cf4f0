-- ===== src/Budget/Window.antt =====
-- `keep_subset` of crates/execkit/src/budget.rs.
use execkit.Base.{
  ℕ, zero, suc, ◌+◌, ◌-◌, ◌^◌, ◌≤◌, ◌<◌, ◌≡◌, refl, min, List, [], ◌∷◌, ◌++◌, arith, leb, length,
  take, drop, if◌then◌else◌, length-take, length-drop, length-append, inl, inr, Bool-cases,
}
use execkit.Budget.Builders.{Keep}
use execkit.Budget.Grep.{saturating_add}
use execkit.Budget.Grep.Near.{Rising, Rising-weaken}

unfoldable pub keep_subset : List ℕ → Keep → List ℕ
keep_subset idx Keep.all = idx
keep_subset idx (Keep.tail k) = drop (length idx - k) idx
keep_subset idx (Keep.head k) = take (min k (length idx)) idx
keep_subset idx (Keep.head_tail h t) =
    let n = length idx in
    if leb n (saturating_add h t) then idx else take (min h n) idx ++ drop (n - min t n) idx

-- How many of `n` lines a window keeps.
abbrev pub quota : Keep → ℕ → ℕ
quota Keep.all n = n
quota (Keep.tail k) n = min k n
quota (Keep.head k) n = min k n
quota (Keep.head_tail h t) n = min (h + t) n

Rising-drop : (n lo hi : ℕ) (ks : List ℕ) → Rising lo hi ks → Rising lo hi (drop n ks)
Rising-drop zero lo hi ks r = r
Rising-drop (suc n) lo hi [] r = tt
Rising-drop (suc n) lo hi (k ∷ ks) r =
    Rising-weaken lo (suc k) hi (drop n ks) (omega (arith, r.0)) (Rising-drop n (suc k) hi ks r.2)

Rising-take : (n lo hi : ℕ) (ks : List ℕ) → Rising lo hi ks → Rising lo hi (take n ks)
Rising-take zero lo hi ks r = tt
Rising-take (suc n) lo hi [] r = tt
Rising-take (suc n) lo hi (k ∷ ks) r = (r.0, r.1, Rising-take n (suc k) hi ks r.2)

-- A prefix and a later suffix.
Rising-ends :
    (h d lo hi : ℕ) (ks : List ℕ) → h ≤ d → Rising lo hi ks → Rising lo hi (take h ks ++ drop d ks)
Rising-ends zero d lo hi ks le r = Rising-drop d lo hi ks r
Rising-ends (suc h) zero lo hi ks le r = absurd (omega arith)
Rising-ends (suc h) (suc d) lo hi [] le r = tt
Rising-ends (suc h) (suc d) lo hi (k ∷ ks) le r =
    (r.0, r.1, Rising-ends h d (suc k) hi ks (omega arith) r.2)

-- A window of increasing line numbers, fewer than 2^64 of them, is increasing and stays in their
-- range: no line is kept twice, and none moves.
pub keep_subset-Rising :
    (keep : Keep) (lo hi : ℕ) (idx : List ℕ)
    → length idx < 2 ^ 64
    → Rising lo hi idx
    → Rising lo hi (keep_subset idx keep)
unfolding keep_subset saturating_add
keep_subset-Rising Keep.all lo hi idx big r = r
keep_subset-Rising (Keep.tail k) lo hi idx big r = Rising-drop (length idx - k) lo hi idx r
keep_subset-Rising (Keep.head k) lo hi idx big r = Rising-take (min k (length idx)) lo hi idx r
keep_subset-Rising (Keep.head_tail h t) lo hi idx big r =
    elim (Bool-cases (leb (length idx) (saturating_add h t))) [
      | inl e ↦ rw e r
      | inr e ↦
          let le : min h (length idx) ≤ length idx - min t (length idx) = ground arith in
          rw e (Rising-ends (min h (length idx)) (length idx - min t (length idx)) lo hi idx le r)
    ]

-- Of fewer than 2^64 lines, the window keeps exactly as many as it asks for, or all of them where there
-- are fewer; this holds for any counts, also those whose sum passes the machine's range.
pub length-keep_subset :
    (keep : Keep) (idx : List ℕ)
    → length idx < 2 ^ 64
    → length (keep_subset idx keep) ≡ quota keep (length idx)
unfolding keep_subset saturating_add
length-keep_subset Keep.all idx big = refl
length-keep_subset (Keep.tail k) idx big = omega (arith, length-drop (length idx - k) idx)
length-keep_subset (Keep.head k) idx big = omega (arith, length-take (min k (length idx)) idx)
length-keep_subset (Keep.head_tail h t) idx big =
    elim (Bool-cases (leb (length idx) (saturating_add h t))) [
      | inl e ↦ rw e (ground arith)
      | inr e ↦
          let m = length idx - min t (length idx) in
          let short : h + t < length idx = ground arith in
          rw e (
            omega (
              arith,
              length-append (take (min h (length idx)) idx) (drop m idx),
              length-take (min h (length idx)) idx,
              length-drop m idx,
            ))
    ]
