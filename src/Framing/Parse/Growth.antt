-- ===== src/Framing/Parse/Growth.antt =====
-- A block stays where it is when the buffer grows (`parse` of crates/execkit/src/framing.rs).
use native.Mathlib.Decide.{dec_lt}
use execkit.Base.{
  ℕ, ◌+◌, ◌-◌, ◌≤◌, ◌<◌, ◌≡◌, refl, true, List, [], ◌∷◌, ◌++◌, some, arith, length, take, drop,
  slice, Option-cases, inl, inr, length-take, length-drop, take-append_le, drop-append_le,
}
use execkit.Text.Chars.{Bytes, starts_with}
use execkit.Framing.Search.{rfind}
use execkit.Framing.Search.Windows.{At, IsLast, rfind-IsLast, length-starts_with}
use execkit.Framing.Markers.{Markers}
use execkit.Framing.Parse.{Block, block_at, block_of, parsed_of}

-- What `block_at` reads lies before the end marker.
pub slice-append :
    (lo hi : ℕ) (xs ys : Bytes) → hi ≤ length xs → slice lo hi (xs ++ ys) ≡ slice lo hi xs
slice-append lo hi xs ys h = elim (dec_lt (length xs) lo) [
  | yes k ↦ let e : hi - lo ≡ 0 = omega arith in rw e
  | no k ↦
      rw (drop-append_le lo xs ys (omega arith))
        (take-append_le (hi - lo) (drop lo xs) ys (omega (arith, length-drop lo xs)))
]

pub block_at-append :
    (acc more : Bytes) (m : Markers) (j : ℕ)
    → j ≤ length acc
    → block_at (acc ++ more) m j ≡ block_at acc m j
unfolding block_at
block_at-append acc more m j h = elim (Option-cases (rfind (take j acc) m.start)) [
  | inl e ↦ rw (take-append_le j acc more h, e, block_at)
  | inr (i, e) ↦
      rw (take-append_le j acc more h, e, slice-append (i + length m.start) j acc more h, block_at)
]

rfind_at :
    (needle hay : Bytes) (i : ℕ)
    → 0 < length needle
    → rfind hay needle ≡ some i
    → i + length needle ≤ length hay
rfind_at [] hay i h e = absurd (omega arith)
rfind_at (x ∷ xs) hay i h e =
    let last : IsLast (x ∷ xs) hay (some i) = rw e at (rfind-IsLast x xs hay) in
    omega (arith, length-starts_with (x ∷ xs) (drop i hay) last.0, length-drop i hay)

-- Where a block lies.
block_of-bounds :
    (i j : ℕ) (l : List ℕ) (k : Block)
    → block_of i j l ≡ some k
    → (k.start_pos ≡ i) × (k.end_pos ≡ j)
block_of-bounds i j (a ∷ b ∷ c ∷ l) k e = ground arith
block_of-bounds i j (a ∷ b ∷ []) k e = cc
block_of-bounds i j (a ∷ []) k e = cc
block_of-bounds i j [] k e = cc

pub block_at-bounds :
    (acc : Bytes) (m : Markers) (j : ℕ) (k : Block)
    → 0 < length m.start
    → block_at acc m j ≡ some k
    → (k.start_pos ≤ j) × (k.end_pos ≡ j)
unfolding block_at
block_at-bounds acc m j k ne h = elim (Option-cases (rfind (take j acc) m.start)) [
  | inl e ↦ cc (rw (e, block_at) at h)
  | inr (i, e) ↦
      let b = block_of-bounds i j _ k (rw (e, block_at) at h) in
      omega (arith, rfind_at m.start (take j acc) i ne e, length-take j acc, b.0, b.1)
]

pub parsed_of-append :
    (acc more : Bytes) (m : Markers) (k : Block)
    → k.start_pos ≤ length acc
    → k.end_pos ≤ length acc
    → parsed_of (acc ++ more) m k ≡ parsed_of acc m k
unfolding parsed_of
parsed_of-append acc more m k hs he = rw (
  slice-append (k.start_pos + length m.start) k.end_pos acc more he,
  take-append_le k.start_pos acc more hs,
)

-- A marker that stands in a buffer and does not reach its end stands there in a longer one too.
starts_with_longer : (w xs ys : Bytes) → starts_with w xs ≡ true → starts_with w (xs ++ ys) ≡ true
unfolding starts_with
starts_with_longer [] xs ys h = refl
starts_with_longer (c ∷ w) [] ys h = cc
starts_with_longer (c ∷ w) (x ∷ xs) ys h = ground (arith, starts_with_longer w xs ys)

starts_with_shorter :
    (w xs ys : Bytes)
    → length w ≤ length xs
    → starts_with w (xs ++ ys) ≡ true
    → starts_with w xs ≡ true
unfolding starts_with
starts_with_shorter [] xs ys le h = refl
starts_with_shorter (c ∷ w) [] ys le h = absurd (omega arith)
starts_with_shorter (c ∷ w) (x ∷ xs) ys le h =
    let le' : length w ≤ length xs = omega arith in ground (arith, starts_with_shorter w xs ys)

pub At-append : (w xs ys : Bytes) (j : ℕ) → 0 < length w → At w xs j true → At w (xs ++ ys) j true
At-append w xs ys j ne h =
    let k = length-starts_with w (drop j xs) h in
    rw (drop-append_le j xs ys (omega (arith, k, length-drop j xs)))
      (starts_with_longer w (drop j xs) ys h)

pub At-of_append :
    (w xs ys : Bytes) (j : ℕ) → j + length w ≤ length xs → At w (xs ++ ys) j true → At w xs j true
At-of_append w xs ys j le h =
    starts_with_shorter w (drop j xs) ys (omega (arith, length-drop j xs))
      (rw (drop-append_le j xs ys (omega arith)) at h)
