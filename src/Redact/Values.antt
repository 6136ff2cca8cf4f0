-- ===== src/Redact/Values.antt =====
-- The pass over `name=value` pairs of crates/execkit/src/redact.rs: `looks_like_code`,
-- `redact_key_values` and `redact`. The regex engine is the `regex` crate's: a match of the key/value
-- pattern comes as its start and its groups, which together are the matched text.
pub mod Pieces
pub mod Rounds
use execkit.Base.{
  ℕ, zero, suc, ◌+◌, ◌-◌, Bool, true, false, not, ◌&&◌, ◌||◌, List, [], ◌∷◌, ◌++◌, Option, none,
  some, ◌==◌, ltb, length, take, drop, slice, is_empty, any, within, if◌then◌else◌,
}
use execkit.Text.Chars.{
  Text, codes, is_whitespace, is_ascii_alphanumeric, is_ascii_digit, is_ascii_uppercase,
  contains_text, eq_text,
}
use execkit.Redact.{balanced_end, mark}

-- Groups 2, 3, and 4 to 6.
pub data Value : Type 0 where
  double single : Text → Value
  bare : (opening value after : Text) → Value

pub record KeyValue : Type 0 where
  pub start : ℕ
  pub prefix : Text
  pub value : Value

abbrev pub is_identifier : ℕ → Bool
is_identifier c = is_ascii_alphanumeric c || c == b'_' || c == b'.' || c == b':'

-- The identifier in front, and what follows it.
abbrev pub split_identifier : Text → Text × Text
split_identifier [] = ([], [])
split_identifier (c ∷ cs) =
    let r = split_identifier cs in if is_identifier c then (c ∷ r.0, r.1) else ([], c ∷ cs)

abbrev pub is_bracket : ℕ → Bool
is_bracket c = c == b'(' || c == b'<' || c == b'[' || c == b'{'

abbrev pub starts_with_digit : Text → Bool
starts_with_digit [] = false
starts_with_digit (c ∷ cs) = is_ascii_digit c

abbrev pub first_or : Text → Option ℕ → Option ℕ
first_or [] next = next
first_or (c ∷ cs) next = some c

abbrev pub holds : (ℕ → Bool) → Option ℕ → Bool
holds p none = false
holds p (some c) = p c

abbrev pub is_path : Text → Bool
is_path id = any (λ c. c == b'.') id || contains_text (codes "::") id

abbrev pub code_shape : Text → Text → Option ℕ → Bool
code_shape id [] next = false
code_shape id (bracket ∷ after) next =
    if not (is_bracket bracket)
    then false
    else if ltb (length id) 3 || starts_with_digit id
    then false
    else is_path id && is_empty after && holds (λ c. true) next
      || bracket == b'<' && holds is_ascii_uppercase (first_or after next)
      || bracket == b'(' && is_empty after && holds (λ c. c == b'"' || c == b'\'') next

unfoldable pub looks_like_code : Text → Option ℕ → Bool
unfolding contains_text
looks_like_code value next = let r = split_identifier value in code_shape r.0 r.1 next

abbrev pub matched_value : Value → Text
matched_value (double v) = b'"' ∷ (v ++ b'"' ∷ [])
matched_value (single v) = b'\'' ∷ (v ++ b'\'' ∷ [])
matched_value (bare opening value after) = opening ++ (value ++ after)

abbrev pub matched : KeyValue → Text
matched m = m.prefix ++ matched_value m.value

abbrev pub is_stop : ℕ → Bool
is_stop c = is_whitespace c || c == b'"' || c == b'\'' || c == b';' || c == b'&' || c == b'|'

-- What is put out for a bare value, and where the next search begins.
unfoldable pub on_bare : Text → ℕ → Text → Text → Text → Text → Text × ℕ
unfolding looks_like_code eq_text balanced_end is_whitespace
on_bare text start prefix opening value after =
    let value_end = start + length (prefix ++ (opening ++ value)) in
    let end = start + length (prefix ++ (opening ++ (value ++ after))) in
    let masked = prefix ++ (opening ++ mark) in
    let more = balanced_end text value value_end is_stop in
    if looks_like_code value (first_or after none)
    then (prefix ++ (opening ++ (value ++ after)), end)
    else if eq_text after (codes ")") && ltb value_end more
    then (masked, more)
    else (prefix ++ (opening ++ (mark ++ after)), end)

abbrev pub on_match : Text → ℕ → Text → Value → Text × ℕ
on_match text start prefix (double v) =
    (prefix ++ b'"' ∷ (mark ++ b'"' ∷ []), start + length (prefix ++ matched_value (double v)))
on_match text start prefix (single v) =
    (prefix ++ b'\'' ∷ (mark ++ b'\'' ∷ []), start + length (prefix ++ matched_value (single v)))
on_match text start prefix (bare opening value after) =
    on_bare text start prefix opening value after

-- Every match is behind the one before, so the length of the text and one more round suffice
-- (`redact_loop-enough`).
unfoldable pub redact_loop : ℕ → (Text → ℕ → Option KeyValue) → Text → ℕ → Text
unfolding on_bare
redact_loop zero captures text pos = drop pos text
redact_loop (suc fuel) captures text pos = elim (captures text pos) [
  | none ↦ drop pos text
  | some m ↦
      let r = on_match text m.start m.prefix m.value in
      slice pos m.start text ++ (r.0 ++ redact_loop fuel captures text r.1)
]

unfoldable pub redact_key_values : (Text → ℕ → Option KeyValue) → Text → Text
unfolding redact_loop
redact_key_values captures text = redact_loop (suc (length text)) captures text 0

-- The patterns, in their order: `template` is a `replace_all` of the regex crate.
pub data Pattern : Type 0 where
  template : (Text → Text) → Pattern
  key_value : Pattern

unfoldable pub redact_patterns : (Text → ℕ → Option KeyValue) → List Pattern → Text → Text
unfolding redact_key_values
redact_patterns captures [] text = text
redact_patterns captures (template f ∷ ps) text = redact_patterns captures ps (f text)
redact_patterns captures (key_value ∷ ps) text =
    redact_patterns captures ps (redact_key_values captures text)
