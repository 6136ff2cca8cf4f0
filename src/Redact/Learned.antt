-- ===== src/Redact/Learned.antt =====
-- What `learn_from_command` (crates/execkit/src/redact.rs) leaves in a session's memory.
use execkit.Base.{
  ℕ, zero, suc, ◌≤◌, ◌≡◌, refl, Bool, true, false, ◌||◌, List, [], ◌∷◌, ◌++◌, Option, length, All,
  ltb, ltb→le, Bool-cases, inl, inr, arith, Option-cases, sym, ||-false,
}
use execkit.Text.Chars.{Text, mem_text, eq_text, eq_text_iff}
use execkit.Redact.{Assignment, value_of, remember, learn_loop, learn_from_command}

-- Each literal once, and none shorter than six characters.
abbrev pub IsMemory : List Text → Type 0
IsMemory [] = Unit {0}
IsMemory (l ∷ ls) = (6 ≤ length l) × (mem_text l ls ≡ false) × IsMemory ls

-- Every literal of the first list is in the second.
abbrev pub Within : List Text → List Text → Type 0
Within ks ls = All (λ k. mem_text k ls ≡ true) ks

mem-append :
    (x : Text) (ls ks : List Text) → mem_text x (ls ++ ks) ≡ (mem_text x ls || mem_text x ks)
unfolding mem_text
mem-append x [] ks = refl
mem-append x (l ∷ ls) ks = rw (mem-append x ls ks) (ground arith)

eq_text_sym : (l v : Text) → eq_text l v ≡ false → eq_text v l ≡ false
eq_text_sym l v e = elim (Bool-cases (eq_text v l)) [
  | inr d ↦ d
  | inl h ↦
      let same = (eq_text_iff v l).0 h in
      let back : eq_text l v ≡ true = (eq_text_iff l v).1 (sym same) in cc
]

one_more :
    (v : Text) (ls : List Text)
    → 6 ≤ length v
    → mem_text v ls ≡ false
    → IsMemory ls
    → IsMemory (ls ++ (v ∷ []))
unfolding mem_text
one_more v [] long new h = (long, refl, tt)
one_more v (l ∷ ls) long new h =
    let differ = ||-false (eq_text l v) (mem_text v ls) new in
    let apart = eq_text_sym l v differ.0 in
    let absent : mem_text l (ls ++ (v ∷ [])) ≡ false =
      rw (mem-append l ls (v ∷ []), h.1, apart) refl in
    (h.0, absent, one_more v ls long differ.1 h.2)

remember-IsMemory :
    (is_secret_name : Text → Bool) (name v : Text) (ls : List Text)
    → IsMemory ls
    → IsMemory (remember is_secret_name name v ls)
unfolding remember
remember-IsMemory is_secret_name name v ls h = elim (Bool-cases (is_secret_name name)) [
  | inr e ↦ rw e h
  | inl e ↦ elim (Bool-cases (ltb (length v) 6)) [
    | inl short ↦ rw (e, short) h
    | inr long ↦ elim (Bool-cases (mem_text v ls)) [
      | inl known ↦ rw (e, long, known) h
      | inr new ↦ rw (e, long, new) (one_more v ls (ltb→le (length v) 6 long) new h)
    ]
  ]
]

remember-keeps :
    (is_secret_name : Text → Bool) (name v x : Text) (ls : List Text)
    → mem_text x ls ≡ true
    → mem_text x (remember is_secret_name name v ls) ≡ true
unfolding remember
remember-keeps is_secret_name name v x ls h = elim (Bool-cases (is_secret_name name)) [
  | inr e ↦ rw e h
  | inl e ↦ elim (Bool-cases (ltb (length v) 6)) [
    | inl short ↦ rw (e, short) h
    | inr long ↦ elim (Bool-cases (mem_text v ls)) [
      | inl known ↦ rw (e, long, known) h
      | inr new ↦ rw (e, long, new, mem-append x ls (v ∷ []), h) refl
    ]
  ]
]

module _ (captures : Text → ℕ → Option Assignment) (is_secret_name : Text → Bool) (cmd : Text) where
  learned :
      (fuel pos : ℕ) (ls : List Text)
      → IsMemory ls
      → IsMemory (learn_loop fuel captures is_secret_name cmd pos ls)
        × ((x : Text)
            → mem_text x ls ≡ true
            → mem_text x (learn_loop fuel captures is_secret_name cmd pos ls) ≡ true)
  unfolding learn_loop
  learned zero pos ls h = (h, λ x m. m)
  learned (suc fuel) pos ls h = elim (Option-cases (captures cmd pos)) [
    | inl e ↦ rw (e, learn_loop) (h, λ x m. m)
    | inr (a, e) ↦
        let v = (value_of cmd a).1 in
        let ih =
          learned fuel (value_of cmd a).0 (remember is_secret_name a.name v ls)
            (remember-IsMemory is_secret_name a.name v ls h) in
        rw (e, learn_loop) (ih.0, λ x m. ih.1 x (remember-keeps is_secret_name a.name v x ls m))
  ]

-- Whatever the assignments in a command and the names that count as secret: a memory of values that
-- holds each once and none shorter than six characters stays one, and no value in it is forgotten.
pub learn_from_command-IsMemory :
    (captures : Text → ℕ → Option Assignment) (is_secret_name : Text → Bool) (ls : List Text)
    (cmd x : Text)
    → IsMemory ls
    → mem_text x ls ≡ true
    → IsMemory (learn_from_command captures is_secret_name ls cmd)
      × (mem_text x (learn_from_command captures is_secret_name ls cmd) ≡ true)
unfolding learn_from_command
learn_from_command-IsMemory captures is_secret_name ls cmd x h m =
    let t = learned captures is_secret_name cmd (suc (length cmd)) 0 ls h in (t.0, t.1 x m)
