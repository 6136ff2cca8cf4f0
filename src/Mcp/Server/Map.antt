-- ===== src/Mcp/Server/Map.antt =====
-- The session map of crates/execkit-mcp/src/main.rs: what holds of every entry, and what is undone.
use execkit.Base.{
  suc, ◌≡◌, refl, ap, false, List, [], ◌∷◌, none, some, All, length, arith, Bool-cases, inl, inr,
}
use execkit.Text.Chars.{Text, eq_text, eq_text_iff}
use execkit.Mcp.Server.{get, insert, remove, alter}

module _ {ℓ} {A : Type ℓ} where
  pub remove-alter :
      (id : Text) (f : A → A) (m : List (Text × A)) → remove id (alter id f m) ≡ remove id m
  unfolding alter remove
  remove-alter id f [] = refl
  remove-alter id f ((k, b) ∷ m) = elim (Bool-cases (eq_text k id)) [
    | inl e ↦ rw e (rw e refl)
    | inr n ↦ rw n (rw n (ap (◌∷◌ (k, b)) (remove-alter id f m)))
  ]

  pub length-alter :
      (id : Text) (f : A → A) (m : List (Text × A)) → length (alter id f m) ≡ length m
  unfolding alter
  length-alter id f [] = refl
  length-alter id f ((k, b) ∷ m) = elim (Bool-cases (eq_text k id)) [
    | inl e ↦ rw e refl
    | inr n ↦ rw (n, length-alter id f m) refl
  ]

  -- A predicate of the entries.
  abbrev pub Each : (A → Type 0) → List (Text × A) → Type 0
  Each P = All (λ m. P m.1)

  module _ (P : A → Type 0) where
    pub get-Each : (id : Text) (m : List (Text × A)) (a : A) → Each P m → get id m ≡ some a → P a
    unfolding get
    get-Each id [] a h g = cc
    get-Each id ((k, b) ∷ m) a h g = elim (Bool-cases (eq_text k id)) [
      | inl e ↦ let same : b ≡ a = ground arith in rw same at (h.0)
      | inr n ↦ get-Each id m a h.1 (ground arith)
    ]

    pub insert-Each :
        (id : Text) (a : A) (m : List (Text × A)) → P a → Each P m → Each P (insert id a m)
    unfolding insert
    insert-Each id a [] p h = (p, tt)
    insert-Each id a ((k, b) ∷ m) p h = elim (Bool-cases (eq_text k id)) [
      | inl e ↦ rw e (p, h.1)
      | inr n ↦ rw n (h.0, insert-Each id a m p h.1)
    ]

    pub alter-Each :
        (id : Text) (f : A → A) (m : List (Text × A))
        → ((a : A) → P a → P (f a))
        → Each P m
        → Each P (alter id f m)
    unfolding alter
    alter-Each id f [] k h = tt
    alter-Each id f ((j, b) ∷ m) k h = elim (Bool-cases (eq_text j id)) [
      | inl e ↦ rw e (k b h.0, h.1)
      | inr n ↦ rw n (h.0, alter-Each id f m k h.1)
    ]

    pub remove-Each : (id : Text) (m : List (Text × A)) → Each P m → Each P (remove id m)
    unfolding remove
    remove-Each id [] h = tt
    remove-Each id ((k, b) ∷ m) h = elim (Bool-cases (eq_text k id)) [
      | inl e ↦ rw e h.1
      | inr n ↦ rw n (h.0, remove-Each id m h.1)
    ]

  -- A removal takes one entry, if it is there.
  pub length-remove :
      (id : Text) (m : List (Text × A)) (a : A)
      → get id m ≡ some a
      → length m ≡ suc (length (remove id m))
  unfolding get remove
  length-remove id [] a g = cc
  length-remove id ((k, b) ∷ m) a g = elim (Bool-cases (eq_text k id)) [
    | inl e ↦ rw e refl
    | inr n ↦ let e : get id m ≡ some a = ground arith in rw (n, length-remove id m a e) refl
  ]

  pub remove_unknown : (id : Text) (m : List (Text × A)) → get id m ≡ none → remove id m ≡ m
  unfolding get remove
  remove_unknown id [] g = refl
  remove_unknown id ((k, b) ∷ m) g = elim (Bool-cases (eq_text k id)) [
    | inl e ↦ absurd (ground arith)
    | inr n ↦ let e : get id m ≡ none = ground arith in rw (n, remove_unknown id m e) refl
  ]

  pub length-insert_new :
      (id : Text) (a : A) (m : List (Text × A))
      → get id m ≡ none
      → length (insert id a m) ≡ suc (length m)
  unfolding get insert
  length-insert_new id a [] g = refl
  length-insert_new id a ((k, b) ∷ m) g = elim (Bool-cases (eq_text k id)) [
    | inl e ↦ absurd (ground arith)
    | inr n ↦ let e : get id m ≡ none = ground arith in rw (n, length-insert_new id a m e) refl
  ]

  pub get-insert_other :
      (id j : Text) (a : A) (m : List (Text × A))
      → eq_text id j ≡ false
      → get j m ≡ none
      → get j (insert id a m) ≡ none
  unfolding get insert
  get-insert_other id j a [] n g = rw n refl
  get-insert_other id j a ((k, b) ∷ m) n g = elim (Bool-cases (eq_text k id)) [
    | inr x ↦ elim (Bool-cases (eq_text k j)) [
      | inl y ↦ absurd (ground arith)
      | inr y ↦ let h : get j m ≡ none = ground arith in rw x (rw y (get-insert_other id j a m n h))
    ]
    | inl x ↦
        let same : k ≡ id = (eq_text_iff k id).0 x in
        let no : eq_text k j ≡ false = rw same n in
        let h : get j m ≡ none = ground arith in rw x (rw n h)
  ]

  pub get-remove_unknown :
      (id j : Text) (m : List (Text × A)) → get j m ≡ none → get j (remove id m) ≡ none
  unfolding get remove
  get-remove_unknown id j [] g = refl
  get-remove_unknown id j ((k, b) ∷ m) g = elim (Bool-cases (eq_text k j)) [
    | inl y ↦ absurd (ground arith)
    | inr y ↦
        let h : get j m ≡ none = ground arith in
        elim (Bool-cases (eq_text k id)) [
          | inl x ↦ rw x h
          | inr x ↦ rw x (rw y (get-remove_unknown id j m h))
        ]
  ]

  pub get-alter_unknown :
      (id j : Text) (f : A → A) (m : List (Text × A)) → get j m ≡ none → get j (alter id f m) ≡ none
  unfolding get alter
  get-alter_unknown id j f [] g = refl
  get-alter_unknown id j f ((k, b) ∷ m) g = elim (Bool-cases (eq_text k j)) [
    | inl y ↦ absurd (ground arith)
    | inr y ↦
        let h : get j m ≡ none = ground arith in
        elim (Bool-cases (eq_text k id)) [
          | inl x ↦ rw x (rw y h)
          | inr x ↦ rw x (rw y (get-alter_unknown id j f m h))
        ]
  ]
