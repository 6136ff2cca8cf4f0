-- ===== src/Framing/Parse/FirstBlock.antt =====
-- The block that `find_block` of crates/execkit/src/framing.rs finds: that of the first end marker
-- which is not rejected.
use native.Mathlib.Decide.{dec_lt}
use execkit.Base.{
  ℕ, zero, suc, ◌+◌, ◌-◌, ◌≤◌, ◌<◌, ◌≡◌, refl, sym, ap, ◌∙◌, Bool, true, false, [], ◌∷◌, Option,
  none, some, arith, length, drop, Option-cases, inl, inr, length-drop, drop-drop,
}
use execkit.Text.Chars.{Bytes}
use execkit.Framing.Search.{find}
use execkit.Framing.Search.Windows.{At, IsFirst, find-IsFirst, length-starts_with}
use execkit.Framing.Markers.{Markers}
use execkit.Framing.Parse.{Block, block_at, find_block}

-- The end markers from `from` on are rejected, or `e` is the first that is not.
abbrev pub IsFirstBlock : Bytes → Markers → ℕ → Option Block → Type 0
IsFirstBlock acc m from none = (j : ℕ) → from ≤ j → At m.end acc j true → block_at acc m j ≡ none
IsFirstBlock acc m from (some k) =
    (e : ℕ) × (from ≤ e)
    × At m.end acc e true
    × (block_at acc m e ≡ some k)
    × ((j : ℕ) → from ≤ j → j < e → At m.end acc j true → block_at acc m j ≡ none)

-- Both markers are nonempty, as `Markers::new` makes them.
abbrev pub IsProper : Markers → Type 0
IsProper m = (0 < length m.start) × (0 < length m.end)

find_from :
    (needle hay : Bytes) (from : ℕ)
    → 0 < length needle
    → (r : Option ℕ) → find (drop from hay) needle ≡ r
    → IsFirst needle (drop from hay) r
find_from [] hay from h r e = absurd (omega arith)
find_from (x ∷ xs) hay from h r e = rw e at (find-IsFirst x xs (drop from hay))

module _ (acc : Bytes) (m : Markers) (end_pos : 0 < length m.end) where
  At-from : (from i : ℕ) (b : Bool) → At m.end (drop from acc) i b → At m.end acc (from + i) b
  At-from from i b h = rw (drop-drop i from acc) at h

  -- An end marker at or behind `from`, seen from `from`.
  back_from :
      (from j : ℕ) → from ≤ j → At m.end acc j true → At m.end (drop from acc) (j - from) true
  back_from from j h t =
      let e : from + (j - from) ≡ j = omega arith in rw (drop-drop (j - from) from acc, e) t

  after_none :
      (from : ℕ) → ((j : ℕ) → At m.end (drop from acc) j false) → IsFirstBlock acc m from none
  after_none from h j le t = cc (h (j - from), back_from from j le t)

  -- No end marker from `from` up to `to` is accepted.
  abbrev Rejects : ℕ → ℕ → Type 0
  Rejects from to = (j : ℕ) → from ≤ j → j < to → At m.end acc j true → block_at acc m j ≡ none

  extend :
      (from to : ℕ) (r : Option Block)
      → from ≤ to
      → Rejects from to
      → IsFirstBlock acc m to r
      → IsFirstBlock acc m from r
  extend from to none le rej h =
      λ j lj t. elim (dec_lt j to) [ yes k ↦ rej j lj k t | no k ↦ h j (omega arith) t ]
  extend from to (some k) le rej h = (
    h.0,
    omega (arith, h.1),
    h.2,
    h.3,
    λ j lj lt t. elim (dec_lt j to) [ yes k ↦ rej j lj k t | no k ↦ h.4 j (omega arith) lt t ],
  )

  reject_upto :
      (from i : ℕ)
      → IsFirst m.end (drop from acc) (some i)
      → block_at acc m (from + i) ≡ none
      → Rejects from (from + i + 1)
  reject_upto from i first bad j lj lt t = elim (dec_lt j (from + i)) [
    | yes k ↦ cc (first.1 (j - from) (omega arith), back_from from j lj t)
    | no k ↦ let e : j ≡ from + i = omega arith in rw e bad
  ]

  accept_at :
      (from i : ℕ) (k : Block)
      → IsFirst m.end (drop from acc) (some i)
      → block_at acc m (from + i) ≡ some k
      → IsFirstBlock acc m from (some k)
  accept_at from i k first good = (
    from + i,
    omega arith,
    At-from from i true first.0,
    good,
    λ j lj lt t. cc (first.1 (j - from) (omega arith), back_from from j lj t),
  )

  find_block-IsFirstBlock :
      (fuel from : ℕ)
      → length acc < from + fuel
      → IsFirstBlock acc m from (find_block fuel acc m from)
  unfolding find_block
  find_block-IsFirstBlock zero from h =
      λ j le t. absurd (omega (arith, length-starts_with m.end (drop j acc) t, length-drop j acc))
  find_block-IsFirstBlock (suc fuel) from h = elim (Option-cases (find (drop from acc) m.end)) [
    | inl e ↦ rw (e, find_block) (after_none from (find_from m.end acc from end_pos none e))
    | inr (i, e) ↦
        let first = find_from m.end acc from end_pos (some i) e in
        elim (Option-cases (block_at acc m (from + i))) [
          | inl bad ↦
              rw (e, bad, find_block)
                (extend from (from + i + 1) (find_block fuel acc m (from + i + 1)) (omega arith)
                  (reject_upto from i first bad)
                  (find_block-IsFirstBlock fuel (from + i + 1) (omega arith)))
          | inr (k, good) ↦ rw (e, good, find_block) (accept_at from i k first good)
        ]
  ]

  IsFirstBlock-unique :
      (from : ℕ) (r s : Option Block)
      → IsFirstBlock acc m from r
      → IsFirstBlock acc m from s
      → r ≡ s
  IsFirstBlock-unique from none none p q = refl
  IsFirstBlock-unique from none (some k) p q = cc (p q.0 q.1 q.2, q.3)
  IsFirstBlock-unique from (some k) none p q = cc (q p.0 p.1 p.2, p.3)
  IsFirstBlock-unique from (some k) (some l) p q = elim (dec_lt p.0 q.0) [
    | yes h ↦ cc (q.4 p.0 p.1 h p.2, p.3)
    | no h ↦ elim (dec_lt q.0 p.0) [
      | yes j ↦ cc (p.4 q.0 q.1 j q.2, q.3)
      | no j ↦ let e : p.0 ≡ q.0 = omega arith in sym p.3 ∙ (ap (block_at acc m) e ∙ q.3)
    ]
  ]

  pub find_block_of_first :
      (r : Option Block) → IsFirstBlock acc m 0 r → find_block (suc (length acc)) acc m 0 ≡ r
  find_block_of_first r h =
      IsFirstBlock-unique 0 _ r (find_block-IsFirstBlock (suc (length acc)) 0 (omega arith)) h

  pub first_of_find_block :
      (r : Option Block) → find_block (suc (length acc)) acc m 0 ≡ r → IsFirstBlock acc m 0 r
  first_of_find_block r e = rw e at (find_block-IsFirstBlock (suc (length acc)) 0 (omega arith))
