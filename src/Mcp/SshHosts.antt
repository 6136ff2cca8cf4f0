-- ===== src/Mcp/SshHosts.antt =====
-- crates/execkit-mcp/src/sshconfig.rs: the `Host` blocks of an ssh configuration.
pub mod Scope
use execkit.Base.{
  ℕ, ◌-◌, ◌^◌, Bool, true, false, not, ◌&&◌, ◌||◌, List, [], ◌∷◌, ◌++◌, Option, none, some, ◌==◌,
  leb, any, is_empty, length, drop, slice, if◌then◌else◌,
}
use execkit.Text.Chars.{
  Text, codes, is_whitespace, begins_with, ends_with, contains_char, starts_with, eq_text,
  eq_ignore_ascii_case,
}
use execkit.Text.Split.{lines, split_whitespace, trim, trim_start, trim_end}
use execkit.Text.Decimal.{parse_unsigned}
use execkit.Mcp.Paths.{FilePath, join}

pub record HostEntry : Type 0 where
  pub hostname : Option Text
  pub user : Option Text
  pub port : Option ℕ
  pub identity_files : List FilePath

abbrev pub no_fields : HostEntry
no_fields = record { hostname = none; user = none; port = none; identity_files = [] }

unfoldable pub unquote : Text → Text
unquote v =
    if leb 2 (length v) && begins_with b'"' v && ends_with b'"' v
    then slice 1 (length v - 1) v
    else v

-- `home.join(p)` keeps an absolute path.
unfoldable pub expand_tilde : Text → FilePath → FilePath
unfolding join
expand_tilde value home =
    if starts_with (codes "~/") value
    then join home (drop 2 value)
    else if eq_text value (codes "~")
    then home
    else join home value

abbrev is_break : ℕ → Bool
is_break c = is_whitespace c || c == b'='

-- The text before the first blank or `=`, and the rest from there on.
unfoldable pub cut_key : Text → Option (Text × Text)
cut_key [] = none
cut_key (c ∷ cs) =
    let rest = cut_key cs in
    if is_break c
    then some ([], c ∷ cs)
    else elim rest [ none ↦ none | some r ↦ some (c ∷ r.0, r.1) ]

abbrev drop_equals : Text → Text
drop_equals [] = []
drop_equals (c ∷ cs) = if c == b'=' then trim_start cs else c ∷ cs

abbrev pub kv_of : Text × Text → Option (Text × Text)
kv_of (key, rest) =
    let value = trim_end (drop_equals (trim_start rest)) in
    if is_empty key then none else if is_empty value then none else some (key, unquote value)

unfoldable pub split_kv : Text → Option (Text × Text)
unfolding cut_key trim_start trim_end
split_kv trimmed = elim (cut_key trimmed) [ none ↦ none | some r ↦ kv_of r ]

-- A pattern with a wildcard or a negation matches nothing.
abbrev has_wildcard : Text → Bool
has_wildcard pat = any (λ c. c == b'*' || c == b'?' || c == b'!') pat

unfoldable pub matches_alias : Text → Text → Bool
unfolding split_whitespace
matches_alias alias value =
    any (λ pat. eq_text pat alias && not (has_wildcard pat)) (split_whitespace value)

abbrev pub get_or_insert : Option Text → Text → Option Text
get_or_insert none value = some value
get_or_insert (some v) value = some v

abbrev pub port_or_parse : Option ℕ → Text → Option ℕ
port_or_parse (some p) value = some p
port_or_parse none value = parse_unsigned (2 ^ 16 - 1) value

-- A keyword of a block that is in scope.
unfoldable pub set_field : FilePath → Text × Text → HostEntry → HostEntry
unfolding eq_ignore_ascii_case
set_field home (key, value) e =
    if eq_ignore_ascii_case key (codes "hostname")
    then record e { hostname = get_or_insert e.hostname value }
    else if eq_ignore_ascii_case key (codes "user")
    then record e { user = get_or_insert e.user value }
    else if eq_ignore_ascii_case key (codes "port")
    then record e { port = port_or_parse e.port value }
    else if eq_ignore_ascii_case key (codes "identityfile")
    then record e { identity_files = e.identity_files ++ (expand_tilde value home ∷ []) }
    else e

-- The loop's variables.
pub record Lookup : Type 0 where
  pub in_block : Bool
  pub matched : Bool
  pub entry : HostEntry

unfoldable pub on_keyword : Text → FilePath → Lookup → Text × Text → Lookup
unfolding eq_ignore_ascii_case
on_keyword alias home s (key, value) =
    if eq_ignore_ascii_case key (codes "host")
    then record s {
      in_block = matches_alias alias value;
      matched = s.matched || matches_alias alias value;
    }
    else if eq_ignore_ascii_case key (codes "match")
    then record s { in_block = false }
    else if not s.in_block
    then s
    else record s { entry = set_field home (key, value) s.entry }

-- The keyword of a line that is neither blank nor a comment.
unfoldable pub keyword_of : Text → Option (Text × Text)
unfolding trim split_kv
keyword_of raw_line =
    let line = trim raw_line in
    if is_empty line || begins_with b'#' line then none else split_kv line

unfoldable pub lookup_lines : Text → FilePath → Lookup → List Text → Lookup
lookup_lines alias home s [] = s
lookup_lines alias home s (raw_line ∷ rest) =
    lookup_lines alias home
      (elim (keyword_of raw_line) [ none ↦ s | some kv ↦ on_keyword alias home s kv ]) rest

unfoldable pub lookup : Text → Text → FilePath → Option HostEntry
unfolding lines
lookup config_text alias home =
    let end =
      lookup_lines alias home (record { in_block = false; matched = false; entry = no_fields })
        (lines config_text) in
    if end.matched then some end.entry else none
