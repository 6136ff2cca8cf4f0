-- ===== src/Mcp/SshHosts/Scope.antt =====
-- What an alias gets from an ssh configuration, stated by blocks: the settings behind each `Host` line
-- that names it, up to the next `Host` or `Match` line.
use execkit.Base.{
  ℕ, ◌-◌, ◌^◌, ◌≡◌, refl, ◌∙◌, Bool, true, false, ◌||◌, List, [], ◌∷◌, ◌++◌, Option, none, some,
  if◌then◌else◌, arith, Bool-cases, Option-cases, inl, inr, append-nil, append_assoc,
}
use execkit.Text.Chars.{Text, codes, eq_ignore_ascii_case}
use execkit.Text.Split.{lines}
use execkit.Text.Decimal.{parse_unsigned}
use execkit.Mcp.Paths.{FilePath}
use execkit.Mcp.SshHosts.{
  HostEntry, no_fields, Lookup, get_or_insert, port_or_parse, expand_tilde, matches_alias,
  set_field, on_keyword, keyword_of, lookup_lines, lookup,
}

abbrev Keyword : Type 0
Keyword = Text × Text

abbrev is_key : Text → Keyword → Bool
is_key name kv = eq_ignore_ascii_case kv.0 name

abbrev pub keywords : List Text → List Keyword
keywords [] = []
keywords (l ∷ ls) = elim (keyword_of l) [ none ↦ keywords ls | some kv ↦ kv ∷ keywords ls ]

-- The settings before the next `Host` or `Match`.
abbrev pub body : List Keyword → List Keyword
body [] = []
body (kv ∷ kvs) =
    if is_key (codes "host") kv then [] else if is_key (codes "match") kv then [] else kv ∷ body kvs

abbrev pub applied : Text → List Keyword → List Keyword
applied alias [] = []
applied alias (kv ∷ kvs) =
    if is_key (codes "host") kv
    then (if matches_alias alias kv.1 then body kvs ++ applied alias kvs else applied alias kvs)
    else applied alias kvs

abbrev pub is_named : Text → List Keyword → Bool
is_named alias [] = false
is_named alias (kv ∷ kvs) =
    if is_key (codes "host") kv
    then matches_alias alias kv.1 || is_named alias kvs
    else is_named alias kvs

-- The first value of a keyword, the first that is a port, and all values.
abbrev pub first_value : Text → List Keyword → Option Text
first_value name [] = none
first_value name (kv ∷ kvs) = if is_key name kv then some kv.1 else first_value name kvs

abbrev pub first_port : List Keyword → Option ℕ
first_port [] = none
first_port (kv ∷ kvs) =
    if is_key (codes "port") kv
    then (elim (parse_unsigned (2 ^ 16 - 1) kv.1) [ none ↦ first_port kvs | some p ↦ some p ])
    else first_port kvs

abbrev pub all_files : FilePath → List Keyword → List FilePath
all_files home [] = []
all_files home (kv ∷ kvs) =
    if is_key (codes "identityfile") kv
    then expand_tilde kv.1 home ∷ all_files home kvs
    else all_files home kvs

abbrev pub entry_of : FilePath → List Keyword → HostEntry
entry_of home kvs = record {
  hostname = first_value (codes "hostname") kvs;
  user = first_value (codes "user") kvs;
  port = first_port kvs;
  identity_files = all_files home kvs;
}

-- A key equals two names only if these are equal.
same_key :
    (k a b : Text)
    → eq_ignore_ascii_case k a ≡ true
    → eq_ignore_ascii_case a b ≡ false
    → eq_ignore_ascii_case k b ≡ false
unfolding eq_ignore_ascii_case
same_key [] [] [] h n = n
same_key [] [] (z ∷ zs) h n = refl
same_key [] (y ∷ ys) b h n = cc
same_key (x ∷ xs) [] b h n = cc
same_key (x ∷ xs) (y ∷ ys) [] h n = refl
same_key (x ∷ xs) (y ∷ ys) (z ∷ zs) h n = ground (arith, same_key xs ys zs)

abbrev absorb : FilePath → HostEntry → List Keyword → HostEntry
absorb home e [] = e
absorb home e (kv ∷ kvs) = absorb home (set_field home kv e) kvs

abbrev or_else {ℓ} : {A : Type ℓ} → Option A → Option A → Option A
or_else none o = o
or_else (some a) o = some a

abbrev merged : FilePath → HostEntry → List Keyword → HostEntry
merged home e kvs = record {
  hostname = or_else e.hostname (first_value (codes "hostname") kvs);
  user = or_else e.user (first_value (codes "user") kvs);
  port = or_else e.port (first_port kvs);
  identity_files = e.identity_files ++ all_files home kvs;
}

get_or_insert-or_else :
    (o : Option Text) (v : Text) (w : Option Text)
    → or_else (get_or_insert o v) w ≡ or_else o (some v)
get_or_insert-or_else none v w = refl
get_or_insert-or_else (some u) v w = refl

port_or_parse-or_else :
    (o : Option ℕ) (v : Text) (w : Option ℕ)
    → or_else (port_or_parse o v) w
      ≡ or_else o (elim (parse_unsigned (2 ^ 16 - 1) v) [ none ↦ w | some p ↦ some p ])
port_or_parse-or_else none v w = elim (Option-cases (parse_unsigned (2 ^ 16 - 1) v)) [
  | inl e ↦ ground arith
  | inr (p, e) ↦ ground arith
]
port_or_parse-or_else (some u) v w = refl

-- The keywords of settings differ.
names :
    (eq_ignore_ascii_case (codes "hostname") (codes "user") ≡ false)
    × (eq_ignore_ascii_case (codes "hostname") (codes "port") ≡ false)
    × (eq_ignore_ascii_case (codes "hostname") (codes "identityfile") ≡ false)
    × (eq_ignore_ascii_case (codes "user") (codes "port") ≡ false)
    × (eq_ignore_ascii_case (codes "user") (codes "identityfile") ≡ false)
    × (eq_ignore_ascii_case (codes "port") (codes "identityfile") ≡ false)
unfolding eq_ignore_ascii_case
names = (refl, refl, refl, refl, refl, refl)

-- One setting, in front of the others.
merged-cons :
    (home : FilePath) (e : HostEntry) (kv : Keyword) (kvs : List Keyword)
    → merged home (set_field home kv e) kvs ≡ merged home e (kv ∷ kvs)
unfolding set_field
merged-cons home e kv kvs = elim (Bool-cases (is_key (codes "hostname") kv)) [
  | inl h ↦
      let u = same_key kv.0 (codes "hostname") (codes "user") h names.0 in
      let q = same_key kv.0 (codes "hostname") (codes "port") h names.1 in
      let i = same_key kv.0 (codes "hostname") (codes "identityfile") h names.2 in
      rw (h, u, q, i, get_or_insert-or_else e.hostname kv.1 (first_value (codes "hostname") kvs))
        refl
  | inr h ↦ elim (Bool-cases (is_key (codes "user") kv)) [
    | inl u ↦
        let q = same_key kv.0 (codes "user") (codes "port") u names.3 in
        let i = same_key kv.0 (codes "user") (codes "identityfile") u names.4 in
        rw (h, u, q, i, get_or_insert-or_else e.user kv.1 (first_value (codes "user") kvs)) refl
    | inr u ↦ elim (Bool-cases (is_key (codes "port") kv)) [
      | inl q ↦
          let i = same_key kv.0 (codes "port") (codes "identityfile") q names.5 in
          rw (h, u, q, i, port_or_parse-or_else e.port kv.1 (first_port kvs)) refl
      | inr q ↦ elim (Bool-cases (is_key (codes "identityfile") kv)) [
        | inl i ↦ rw (h, u, q, i, append_assoc) refl
        | inr i ↦ rw (h, u, q, i) refl
      ]
    ]
  ]
]

absorb-merged :
    (home : FilePath) (e : HostEntry) (kvs : List Keyword) → absorb home e kvs ≡ merged home e kvs
absorb-merged home e [] = ground (arith, append-nil e.identity_files)
absorb-merged home e (kv ∷ kvs) =
    absorb-merged home (set_field home kv e) kvs ∙ merged-cons home e kv kvs

abbrev steps : Text → FilePath → Lookup → List Keyword → Lookup
steps alias home s [] = s
steps alias home s (kv ∷ kvs) = steps alias home (on_keyword alias home s kv) kvs

-- One line, whose keyword is known or missing.
line-step :
    (alias : Text) (home : FilePath) (s : Lookup) (ls : List Text) (o : Option Keyword)
    → ((t : Lookup) → lookup_lines alias home t ls ≡ steps alias home t (keywords ls))
    → lookup_lines alias home (elim o [ none ↦ s | some kv ↦ on_keyword alias home s kv ]) ls
      ≡ steps alias home s (elim o [ none ↦ keywords ls | some kv ↦ kv ∷ keywords ls ])
line-step alias home s ls none ih = ih s
line-step alias home s ls (some kv) ih = ih (on_keyword alias home s kv)

lookup_lines-steps :
    (alias : Text) (home : FilePath) (s : Lookup) (ls : List Text)
    → lookup_lines alias home s ls ≡ steps alias home s (keywords ls)
unfolding lookup_lines
lookup_lines-steps alias home s [] = refl
lookup_lines-steps alias home s (l ∷ ls) =
    line-step alias home s ls (keyword_of l) (λ t. lookup_lines-steps alias home t ls)

abbrev in_scope : Text → Bool → List Keyword → List Keyword
in_scope alias b kvs = (if b then body kvs else []) ++ applied alias kvs

steps-matched :
    (alias : Text) (home : FilePath) (s : Lookup) (kvs : List Keyword)
    → (steps alias home s kvs).matched ≡ (s.matched || is_named alias kvs)
unfolding on_keyword
steps-matched alias home s [] = ground arith
steps-matched alias home s (kv ∷ kvs) =
    ground (arith, steps-matched alias home (on_keyword alias home s kv) kvs)

steps-entry :
    (alias : Text) (home : FilePath) (s : Lookup) (kvs : List Keyword)
    → (steps alias home s kvs).entry ≡ absorb home s.entry (in_scope alias s.in_block kvs)
unfolding on_keyword
steps-entry alias home s [] = ground arith
steps-entry alias home s (kv ∷ kvs) =
    ground (arith, steps-entry alias home (on_keyword alias home s kv) kvs)

-- An alias is found exactly if some `Host` line names it, and its entry is made of the settings that
-- stand behind such lines, each up to the next `Host` or `Match` line: the first host name, the first
-- user, the first port that reads as one, and every key file in order, each against the home.
pub lookup-eq-blocks :
    (config_text alias : Text) (home : FilePath)
    → lookup config_text alias home ≡ (
        if is_named alias (keywords (lines config_text))
        then some (entry_of home (applied alias (keywords (lines config_text))))
        else none)
unfolding lookup
lookup-eq-blocks config_text alias home =
    let ls = lines config_text in
    let start : Lookup = record { in_block = false; matched = false; entry = no_fields } in
    let kvs = keywords ls in
    rw
      (
        lookup_lines-steps alias home start ls,
        steps-matched alias home start kvs,
        steps-entry alias home start kvs,
        absorb-merged home no_fields (applied alias kvs),
      )
      refl
