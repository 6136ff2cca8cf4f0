-- ===== src/Mcp/Retention.antt =====
-- crates/execkit-mcp/src/retention.rs: pruning of old audit files. Times and ages
-- are nanoseconds, the unit of a Duration; the directory is the list of its entries, and a failed
-- removal leaves its file.
use execkit.Base.{
  ℕ, ◌+◌, ◌-◌, ◌<◌, ◌↔◌, ◌≡◌, refl, ap, &&-true, Bool-cases, inl, inr, arith, Bool, true, false,
  not, ◌&&◌, List, [], ◌∷◌, Option, none, some, ltb, leb, filter,
}
use execkit.Text.Chars.{Text, codes, eq_text, eq_text_iff}

unfoldable pub is_expired : ℕ → ℕ → ℕ → Bool
is_expired modified now max_age = leb modified now && ltb max_age (now - modified)

-- `removable` says whether `remove_file` succeeds.
pub record Entry : Type 0 where
  pub name : Text
  pub extension : Option Text
  pub modified : Option ℕ
  pub removable : Bool

abbrev is_jsonl : Option Text → Bool
is_jsonl none = false
is_jsonl (some e) = eq_text e (codes "jsonl")

abbrev has_expired : ℕ → ℕ → Option ℕ → Bool
has_expired now max_age none = false
has_expired now max_age (some modified) = is_expired modified now max_age

abbrev pub is_swept : ℕ → ℕ → Entry → Bool
is_swept now max_age e = is_jsonl e.extension && has_expired now max_age e.modified && e.removable

-- The entries that are left.
unfoldable pub sweep : ℕ → ℕ → List Entry → List Entry
sweep now max_age entries = filter (λ e. not (is_swept now max_age e)) entries

-- What a sweep deletes: a `.jsonl` file that was modified more than the age ago, where it can be removed.
abbrev pub IsPruned : ℕ → ℕ → Entry → Type 0
IsPruned now max_age e =
    (e.extension ≡ some (codes "jsonl"))
    × ((modified : ℕ) × (e.modified ≡ some modified) × (modified + max_age < now))
    × (e.removable ≡ true)

-- A directory before and after a sweep: file by file, in their order.
pub data IsSweep (now max_age : ℕ) : List Entry → List Entry → Type 0 where
  empty : IsSweep now max_age [] []
  pruned :
      (e : Entry) (es left : List Entry)
      → IsPruned now max_age e
      → IsSweep now max_age es left
      → IsSweep now max_age (e ∷ es) left
  spared :
      (e : Entry) (es left : List Entry)
      → ¬ (IsPruned now max_age e)
      → IsSweep now max_age es left
      → IsSweep now max_age (e ∷ es) (e ∷ left)

is_jsonl_iff : (o : Option Text) → (is_jsonl o ≡ true) ↔ (o ≡ some (codes "jsonl"))
is_jsonl_iff none = (λ h. absurd (cc), λ h. absurd (cc))
is_jsonl_iff (some e) = (
  λ h. ap some ((eq_text_iff e (codes "jsonl")).0 h),
  λ h. (eq_text_iff e (codes "jsonl")).1 (let same : e ≡ codes "jsonl" = cc in same),
)

has_expired_iff :
    (now max_age : ℕ) (o : Option ℕ)
    → (has_expired now max_age o ≡ true)
      ↔ ((modified : ℕ) × (o ≡ some modified) × (modified + max_age < now))
unfolding is_expired
has_expired_iff now max_age none = (λ h. absurd (cc), λ (m, e, l). absurd (cc))
has_expired_iff now max_age (some t) =
    (λ h. (t, refl, ground arith), λ (m, e, l). let same : t ≡ m = cc in ground arith)

is_swept_iff :
    (now max_age : ℕ) (e : Entry) → (is_swept now max_age e ≡ true) ↔ IsPruned now max_age e
is_swept_iff now max_age e = (
  λ s.
      let a = &&-true (is_jsonl e.extension && has_expired now max_age e.modified) e.removable s in
      let b = &&-true (is_jsonl e.extension) (has_expired now max_age e.modified) a.0 in
      ((is_jsonl_iff e.extension).0 b.0, (has_expired_iff now max_age e.modified).0 b.1, a.1),
  λ (x, t, r).
      rw ((is_jsonl_iff e.extension).1 x, (has_expired_iff now max_age e.modified).1 t, r) refl,
)

-- A sweep deletes exactly the `.jsonl` files that were last modified more than `max_age` ago and can be
-- removed; every other entry stays, in its place: a file of another kind, one of exactly that age or
-- younger, one modified in the future, and one whose time cannot be read.
pub sweep-IsSweep :
    (now max_age : ℕ) (entries : List Entry)
    → IsSweep now max_age entries (sweep now max_age entries)
unfolding sweep
sweep-IsSweep now max_age [] = empty
sweep-IsSweep now max_age (e ∷ es) =
    let ih = sweep-IsSweep now max_age es in
    elim (Bool-cases (is_swept now max_age e)) [
      | inl s ↦ rw s (pruned e es (sweep now max_age es) ((is_swept_iff now max_age e).0 s) ih)
      | inr s ↦ rw s (
          spared e es (sweep now max_age es) (λ p. let t = (is_swept_iff now max_age e).1 p in cc)
            ih)
    ]
