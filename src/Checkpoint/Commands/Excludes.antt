-- ===== src/Checkpoint/Commands/Excludes.antt =====
-- The order of the exclude file keeps secrets out of every snapshot. `matches pattern path` stands for
-- git's pattern matching; the last pattern that matches decides, and one with a leading `!` includes.
use execkit.Base.{
  Bool, true, false, not, ◌||◌, ◌≡◌, refl, ◌∙◌, ◌==◌, List, [], ◌∷◌, ◌++◌, any, if◌then◌else◌,
  Bool-cases, inl, inr, arith,
}
use execkit.Text.Chars.{Text}
use execkit.Checkpoint.Commands.{Checkpointer, exclude_patterns, secret_ignores, build_ignores}

abbrev pub is_negated : Text → Bool
is_negated [] = false
is_negated (c ∷ cs) = c == b'!'

or_of : (a b : Bool) → b ≡ true → (a || b) ≡ true
or_of a b h = ground arith

module _ (matches : Text → Text → Bool) where
  -- `was` is the decision before the patterns.
  abbrev pub is_ignored : Text → Bool → List Text → Bool
  is_ignored path was [] = was
  is_ignored path was (p ∷ ps) =
      is_ignored path (if matches p path then not (is_negated p) else was) ps

  ignored-append :
      (path : Text) (was : Bool) (ps qs : List Text)
      → is_ignored path was (ps ++ qs) ≡ is_ignored path (is_ignored path was ps) qs
  ignored-append path was [] qs = refl
  ignored-append path was (p ∷ ps) qs =
      ignored-append path (if matches p path then not (is_negated p) else was) ps qs

  -- Patterns without a negation ignore what one of them matches.
  plain_patterns :
      (path : Text) (was : Bool) (ps : List Text)
      → any is_negated ps ≡ false
      → is_ignored path was ps ≡ (was || any (λ p. matches p path) ps)
  plain_patterns path was [] h = ground arith
  plain_patterns path was (p ∷ ps) h = elim (Bool-cases (is_negated p)) [
    | inl n ↦ absurd (ground arith)
    | inr n ↦
        let h' : any is_negated ps ≡ false = ground arith in
        rw (plain_patterns path (if matches p path then not (is_negated p) else was) ps h', n)
          (ground arith)
  ]

  -- Whatever patterns the user adds, negations included, and whatever pattern matching is: a path that
  -- one of the secret patterns matches is ignored by the exclude file that `init_cmd` writes.
  pub secret-ignored :
      (cp : Checkpointer) (path : Text) (was : Bool)
      → any (λ p. matches p path) secret_ignores ≡ true
      → is_ignored path was (exclude_patterns cp) ≡ true
  secret-ignored cp path was h =
      let before = is_ignored path (is_ignored path was build_ignores) cp.ignores in
      ignored-append path was build_ignores (cp.ignores ++ secret_ignores)
      ∙ (ignored-append path (is_ignored path was build_ignores) cp.ignores secret_ignores
          ∙ (plain_patterns path before secret_ignores refl
              ∙ or_of before (any (λ p. matches p path) secret_ignores) h))
