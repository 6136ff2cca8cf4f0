-- ===== src/Redact.antt =====
-- crates/execkit/src/redact.rs: what a session learns from its commands, and how it takes the learned
-- values out of a text. The regex engine is the `regex` crate's: `captures` gives the next assignment
-- from a position on, `is_secret_name` tests a name, and `shapes` applies the fixed patterns.
pub mod Learned
pub mod Literals
pub mod Fuel
pub mod Values
use execkit.Base.{
  ℕ, zero, suc, ◌+◌, ◌-◌, Bool, true, false, not, ◌&&◌, ◌||◌, List, [], ◌∷◌, ◌++◌, Option, none,
  some, ◌==◌, ltb, leb, length, take, drop, slice, if◌then◌else◌,
}
use execkit.Text.Chars.{Text, codes, is_whitespace, starts_with, mem_text, begins_with, ends_with}
use execkit.Text.Utf8.{as_bytes}

-- Positions are counted in characters, where the code counts bytes.
pub record Assignment : Type 0 where
  pub end : ℕ
  pub name : Text
  pub value_start : ℕ
  pub value_end : ℕ

unfoldable pub strip_quotes : Text → Text
strip_quotes s =
    if leb 2 (length s)
      && ((begins_with b'"' s && ends_with b'"' s) || (begins_with b'\'' s && ends_with b'\'' s))
    then slice 1 (length s - 1) s
    else s

unfoldable pub count_open : Text → ℕ
count_open [] = 0
count_open (c ∷ cs) = if c == b'(' then suc (count_open cs) else count_open cs

abbrev depth_after : ℕ → ℕ → ℕ
depth_after c depth = if c == b'(' then depth + 1 else if c == b')' then depth - 1 else depth

-- How many characters a value with `depth` unclosed `(` still has.
unfoldable pub more_of_value : (ℕ → Bool) → ℕ → Text → ℕ
more_of_value stop depth [] = 0
more_of_value stop depth (c ∷ cs) =
    let rest = more_of_value stop (depth_after c depth) cs in
    if stop c || (c == b')' && depth == 0) then 0 else suc rest

unfoldable pub balanced_end : Text → Text → ℕ → (ℕ → Bool) → ℕ
balanced_end text value at stop =
    if count_open value == 0 then at else at + more_of_value stop (count_open value) (drop at text)

abbrev pub ends_bare_value : ℕ → Bool
ends_bare_value c = is_whitespace c || c == b';' || c == b'&' || c == b'|'

-- Where the value of an assignment ends, and the value.
unfoldable pub value_of : Text → Assignment → ℕ × Text
value_of cmd a =
    let raw = slice a.value_start a.value_end cmd in
    let stripped = strip_quotes raw in
    let end = balanced_end cmd raw a.value_end ends_bare_value in
    if length stripped == length raw then (end, slice a.value_start end cmd) else (a.end, stripped)

-- The literals after one more value.
unfoldable pub remember : (Text → Bool) → Text → Text → List Text → List Text
remember is_secret_name name value literals =
    if not (is_secret_name name)
    then literals
    else if ltb (length value) 6
    then literals
    else if mem_text value literals
    then literals
    else literals ++ (value ∷ [])

-- The loop over the assignments; each match ends behind the last one, so the length of the command and
-- one more round suffice.
unfoldable pub learn_loop :
    ℕ → (Text → ℕ → Option Assignment) → (Text → Bool) → Text → ℕ → List Text → List Text
learn_loop zero captures is_secret_name cmd pos literals = literals
learn_loop (suc fuel) captures is_secret_name cmd pos literals = elim (captures cmd pos) [
  | none ↦ literals
  | some a ↦
      learn_loop fuel captures is_secret_name cmd (value_of cmd a).0
        (remember is_secret_name a.name (value_of cmd a).1 literals)
]

unfoldable pub learn_from_command :
    (Text → ℕ → Option Assignment) → (Text → Bool) → List Text → Text → List Text
learn_from_command captures is_secret_name literals cmd =
    learn_loop (suc (length cmd)) captures is_secret_name cmd 0 literals

abbrev pub mark : Text
mark = codes "[REDACTED]"

-- `replace` by the mark; `skip` characters of a match are still to be passed over.
unfoldable pub replace_from : Text → ℕ → Text → Text
replace_from lit skip [] = []
replace_from lit (suc skip) (c ∷ cs) = replace_from lit skip cs
replace_from lit zero (c ∷ cs) =
    let hit = replace_from lit (length lit - 1) cs in
    let miss = replace_from lit zero cs in
    if starts_with lit (c ∷ cs) then mark ++ hit else c ∷ miss

-- `sort_by_key` with the longest first; equal keys keep their order.
unfoldable pub insert_longest : Text → List Text → List Text
insert_longest l [] = l ∷ []
insert_longest l (k ∷ ks) =
    if ltb (length (as_bytes l)) (length (as_bytes k)) then k ∷ insert_longest l ks else l ∷ k ∷ ks

unfoldable pub sort_longest : List Text → List Text
sort_longest [] = []
sort_longest (l ∷ ls) = insert_longest l (sort_longest ls)

unfoldable pub redact_each : List Text → Text → Text
redact_each [] text = text
redact_each (l ∷ ls) text = redact_each ls (replace_from l zero text)

unfoldable pub redact : (Text → Text) → List Text → Text → Text
redact shapes literals text = redact_each (sort_longest literals) (shapes text)

unfoldable pub redact_command :
    (Text → Text) → (Text → ℕ → Option Assignment) → (Text → Bool) → List Text → Text → Text
redact_command shapes captures is_secret_name literals cmd =
    redact shapes (learn_from_command captures is_secret_name literals cmd) cmd
