-- ===== src/Output/Bound.antt =====
-- What `bound` promises: short texts pass, long ones are cut in the middle and flagged.
use native.Mathlib.Decide.{dec_lt}
use execkit.Base.{
  append_assoc, take-append_le, take-take, drop-append_self, drop_all, sym, ◌∙◌, drop, ltb,
  length-drop, length-take, length-append, refl, ℕ, ◌+◌, ◌-◌, ◌*◌, ◌/◌, ◌^◌, ◌≤◌, ◌<◌, ◌≡◌, true,
  false, [], ◌++◌, arith, leb, length, take,
}
use execkit.Text.Chars.{Text, codes}
use execkit.Text.Decimal.{decimal}
use execkit.Text.Decimal.Length.{length-decimal}
use execkit.Output.{bound}

-- The cut form of a text that is too long for `max`.
abbrev pub middle : Text → ℕ → Text
middle s half =
    take half s
    ++ (codes "\n... "
        ++ (decimal (length s - 2 * half)
            ++ (codes " chars elided ...\n" ++ drop (length s - half) s)))

length-middle :
    (s : Text) (half : ℕ)
    → length s < 10 ^ 20
    → 2 * half ≤ length s
    → length (middle s half) ≤ 2 * half + 43
length-middle s half big h = omega (
  arith,
  length-append (take half s) (
      codes "\n... "
      ++ (decimal (length s - 2 * half)
          ++ (codes " chars elided ...\n" ++ drop (length s - half) s))),
  length-append (decimal (length s - 2 * half))
      (codes " chars elided ...\n" ++ drop (length s - half) s),
  length-take half s,
  length-drop (length s - half) s,
  length-decimal 19 (length s - 2 * half) (omega (arith, big)),
)

bound_whole : (s : Text) (max : ℕ) → length s ≤ max → bound s max ≡ (s, false)
unfolding bound
bound_whole s max h = let t : leb (length s) max ≡ true = ground arith in rw t

bound_none : (s : Text) (max : ℕ) → max < length s → max < 2 → bound s max ≡ ([], true)
unfolding bound
bound_none s max h k =
    let t : leb (length s) max ≡ false = ground arith in
    let u : ltb max 2 ≡ true = ground arith in rw (t, u)

bound_cut :
    (s : Text) (max : ℕ) → max < length s → 2 ≤ max → bound s max ≡ (middle s (max / 2), true)
unfolding bound
bound_cut s max h k =
    let t : leb (length s) max ≡ false = ground arith in
    let u : ltb max 2 ≡ false = ground arith in rw (t, u)

length-bound : (s : Text) (max : ℕ) → length s < 2 ^ 64 → length (bound s max).0 ≤ max + 43
length-bound s max big = elim (dec_lt max (length s)) [
  | no h ↦ rw (bound_whole s max (omega arith)) (omega arith)
  | yes h ↦ elim (dec_lt max 2) [
    | yes k ↦ rw (bound_none s max h k) (omega arith)
    | no k ↦
        rw (bound_cut s max h (omega arith))
          (omega (arith, length-middle s (max / 2) (omega arith) (omega arith)))
  ]
]

-- What a bounded text keeps of the text: its ends, each `half` long.
abbrev pub KeepsEnds : Text → ℕ → Text → Type 0
KeepsEnds s half out =
    (take half out ≡ take half s) × (drop (length out - half) out ≡ drop (length s - half) s)

abbrev front : Text → ℕ → Text
front s half =
    take half s
    ++ (codes "\n... " ++ (decimal (length s - 2 * half) ++ codes " chars elided ...\n"))

middle_parts : (s : Text) (half : ℕ) → middle s half ≡ front s half ++ drop (length s - half) s
middle_parts s half = rw (
  append_assoc (take half s)
      (codes "\n... " ++ (decimal (length s - 2 * half) ++ codes " chars elided ...\n"))
      (drop (length s - half) s),
  append_assoc (decimal (length s - 2 * half)) (codes " chars elided ...\n")
      (drop (length s - half) s),
)

middle-KeepsEnds : (s : Text) (half : ℕ) → 2 * half ≤ length s → KeepsEnds s half (middle s half)
middle-KeepsEnds s half h =
    let tail = drop (length s - half) s in
    let size : length (take half s) ≡ half = omega (arith, length-take half s) in
    let behind : length (front s half ++ tail) - half ≡ length (front s half) =
      omega (arith, length-append (front s half) tail, length-drop (length s - half) s) in
    (
      take-append_le half (take half s) _ (omega arith) ∙ take-take half half s (omega arith),
      rw (middle_parts s half, behind) (drop-append_self (front s half) tail),
    )

bound-KeepsEnds : (s : Text) (max : ℕ) → KeepsEnds s (max / 2) (bound s max).0
bound-KeepsEnds s max = elim (dec_lt max (length s)) [
  | no h ↦ rw (bound_whole s max (omega arith)) (refl, refl)
  | yes h ↦ elim (dec_lt max 2) [
    | yes k ↦
        let zero_half : max / 2 ≡ 0 = omega arith in
        rw (bound_none s max h k, zero_half) (refl, sym (drop_all (length s - 0) s (omega arith)))
    | no k ↦ rw (bound_cut s max h (omega arith)) (middle-KeepsEnds s (max / 2) (omega arith))
  ]
]

bound-flag : (s : Text) (max : ℕ) → (bound s max).1 ≡ ltb max (length s)
bound-flag s max = elim (dec_lt max (length s)) [
  | no h ↦
      let e : ltb max (length s) ≡ false = ground arith in rw (bound_whole s max (omega arith), e)
  | yes h ↦
      let e : ltb max (length s) ≡ true = ground arith in
      elim (dec_lt max 2) [
        | yes k ↦ rw (bound_none s max h k, e)
        | no k ↦ rw (bound_cut s max h (omega arith), e)
      ]
]

-- For a text whose length fits a machine word: `bound` flags exactly the texts of more than `max`
-- characters, keeps the first and the last `max / 2` characters of any text, and gives no text longer
-- than `max` and 43 characters, the marker's greatest length.
pub bound_lem :
    (s : Text) (max : ℕ)
    → length s < 2 ^ 64
    → ((bound s max).1 ≡ ltb max (length s))
      × KeepsEnds s (max / 2) (bound s max).0
      × (length (bound s max).0 ≤ max + 43)
bound_lem s max big = (bound-flag s max, bound-KeepsEnds s max, length-bound s max big)
