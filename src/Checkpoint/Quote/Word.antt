-- ===== src/Checkpoint/Quote/Word.antt =====
-- What a quoted text is for the shell: exactly one word, with the text as its value. The word reader
-- follows the quoting rules of POSIX sh (section 2.2) for the two kinds of quoting that `shq` writes,
-- and stops at any unquoted character else.
use execkit.Base.{
  ℕ, ◌≡◌, refl, ◌==◌, [], ◌∷◌, ◌++◌, Bool-cases, inl, inr, append_assoc, if◌then◌else◌, ==_iff,
  false,
}
use execkit.Text.Chars.{Text}
use execkit.Checkpoint.Quote.{escape_quotes, shq}

pub data Quoting : Type 0 where
  outside within_quotes after_backslash : Quoting

abbrev cons : ℕ → Text × Text → Text × Text
cons c r = (c ∷ r.0, r.1)

-- The value of the word at the front of a text, and what follows the word.
abbrev pub read_word : Quoting → Text → Text × Text
read_word q [] = ([], [])
read_word Quoting.outside (c ∷ cs) =
    let quoted = read_word Quoting.within_quotes cs in
    let escaped = read_word Quoting.after_backslash cs in
    if c == b'\'' then quoted else if c == b'\\' then escaped else ([], c ∷ cs)
read_word Quoting.within_quotes (c ∷ cs) =
    let closed = read_word Quoting.outside cs in
    let more = read_word Quoting.within_quotes cs in if c == b'\'' then closed else cons c more
read_word Quoting.after_backslash (c ∷ cs) = cons c (read_word Quoting.outside cs)

-- What ends a word: the text's end, or a character that no quoting starts with.
abbrev pub IsWordEnd : Text → Type 0
IsWordEnd [] = Unit {0}
IsWordEnd (c ∷ cs) = ((c == b'\'') ≡ false) × ((c == b'\\') ≡ false)

read_end : (rest : Text) → IsWordEnd rest → read_word Quoting.outside rest ≡ ([], rest)
read_end [] h = refl
read_end (c ∷ cs) h = rw (h.0, h.1)

read_quoted :
    (s rest : Text)
    → IsWordEnd rest
    → read_word Quoting.within_quotes (escape_quotes s ++ (b'\'' ∷ rest)) ≡ (s, rest)
unfolding escape_quotes
read_quoted [] rest h = read_end rest h
read_quoted (c ∷ cs) rest h = elim (Bool-cases (c == b'\'')) [
  | inl e ↦ rw (e, read_quoted cs rest h, (==_iff c b'\'').0 e)
  | inr e ↦ rw (e, e, read_quoted cs rest h)
]

-- No text escapes its quotes: for the shell, `shq s` in front of anything that ends a word is one word
-- whose value is `s`, and the rest of the line is left as it is.
pub read_word-shq :
    (s rest : Text) → IsWordEnd rest → read_word Quoting.outside (shq s ++ rest) ≡ (s, rest)
unfolding shq
read_word-shq s rest h =
    rw (append_assoc (escape_quotes s) (b'\'' ∷ []) rest) (read_quoted s rest h)
