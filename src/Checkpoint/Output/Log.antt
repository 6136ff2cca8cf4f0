-- ===== src/Checkpoint/Output/Log.antt =====
-- The log that `list_cmd` prints reads back as the checkpoints it was printed from.
use execkit.Base.{
  ℕ, Bool, true, false, ◌&&◌, ◌≡◌, refl, ap, ◌∙◌, ◌==◌, ltb, leb, List, [], ◌∷◌, ◌++◌, some, all,
  All, map, length, is_empty, arith,
}
use execkit.Text.Chars.{Text, codes, is_ascii_hexdigit, is_whitespace}
use execkit.Text.Utf8.{as_bytes, encode_char}
use execkit.Text.Split.{splitn, trim, join}
use execkit.Text.Split.Laws.{IsLine, lines-join, split_once-append, trim_none, none_of}
use execkit.Checkpoint.Output.{Checkpoint, entry_of, push_entry, entries, parse_log}

-- `--format='%H %ct %s'`.
abbrev pub print_entry : Checkpoint → Text
print_entry c = c.id ++ (b' ' ∷ (c.created ++ (b' ' ∷ c.label)))

-- A commit's hash, a time without spaces, and a subject of one line.
abbrev pub IsCommit : Checkpoint → Type 0
IsCommit c =
    (length c.id ≡ 40)
    × (all is_ascii_hexdigit c.id ≡ true)
    × (all (leb 33) c.created ≡ true)
    × (all (leb 32) c.label ≡ true)

as_bytes_ascii : (w : Text) → all is_ascii_hexdigit w ≡ true → as_bytes w ≡ w
unfolding as_bytes encode_char
as_bytes_ascii [] h = refl
as_bytes_ascii (c ∷ cs) h =
    let hc : ltb c 0x80 ≡ true = ground arith in
    let hs : all is_ascii_hexdigit cs ≡ true = ground arith in rw (hc, as_bytes_ascii cs hs)

hex_visible : (w : Text) → all is_ascii_hexdigit w ≡ true → all (leb 33) w ≡ true
hex_visible [] h = refl
hex_visible (c ∷ cs) h =
    let hc : leb 33 c ≡ true = ground arith in
    let hs : all is_ascii_hexdigit cs ≡ true = ground arith in rw (hc, hex_visible cs hs)

visible_no_space : (w : Text) → all (leb 33) w ≡ true → none_of (λ c. c == b' ') w ≡ true
visible_no_space [] h = refl
visible_no_space (c ∷ cs) h =
    let hs : all (leb 33) cs ≡ true = ground arith in rw (visible_no_space cs hs) (ground arith)

hex_no_blank : (w : Text) → all is_ascii_hexdigit w ≡ true → none_of is_whitespace w ≡ true
unfolding is_whitespace
hex_no_blank [] h = refl
hex_no_blank (c ∷ cs) h =
    let hs : all is_ascii_hexdigit cs ≡ true = ground arith in
    let hc : is_whitespace c ≡ false = ground arith in rw (hex_no_blank cs hs, hc)

visible_printable : (w : Text) → all (leb 33) w ≡ true → all (leb 32) w ≡ true
visible_printable [] h = refl
visible_printable (c ∷ cs) h =
    let hs : all (leb 33) cs ≡ true = ground arith in rw (visible_printable cs hs) (ground arith)

all-append : (p : ℕ → Bool) (xs ys : Text) → all p (xs ++ ys) ≡ (all p xs && all p ys)
all-append p [] ys = refl
all-append p (x ∷ xs) ys = rw (all-append p xs ys) (ground arith)

not_empty : (xs ys : Text) → is_empty ys ≡ false → is_empty (xs ++ ys) ≡ false
not_empty [] ys h = h
not_empty (x ∷ xs) ys h = refl

good :
    (id created label : Text)
    → length id ≡ 40
    → all is_ascii_hexdigit id ≡ true
    → entry_of (id ∷ created ∷ label ∷ [])
      ≡ some (record { id = id; label = label; created = created })
unfolding trim
good id created label n h =
    let t = trim_none is_whitespace id (hex_no_blank id h) in
    let b = as_bytes_ascii id h in rw (t, b, n, h)

module _ (c : Checkpoint) (h : IsCommit c) where
  printed-IsLine : IsLine (print_entry c)
  printed-IsLine =
      let id_line = visible_printable c.id (hex_visible c.id h.1) in
      let time_line = visible_printable c.created h.2 in
      let tail = all-append (leb 32) c.created (b' ' ∷ c.label) in
      let whole = all-append (leb 32) c.id (b' ' ∷ (c.created ++ (b' ' ∷ c.label))) in
      (
        not_empty c.id (b' ' ∷ (c.created ++ (b' ' ∷ c.label))) refl,
        rw (whole, tail, id_line, time_line, h.3) refl,
      )

  pieces : splitn 3 b' ' (print_entry c) ≡ c.id ∷ c.created ∷ c.label ∷ []
  unfolding splitn
  pieces =
      let id_ends =
        split_once-append (λ k. k == b' ') b' ' c.id (c.created ++ (b' ' ∷ c.label)) refl
          (visible_no_space c.id (hex_visible c.id h.1)) in
      let time_ends =
        split_once-append (λ k. k == b' ') b' ' c.created c.label refl
          (visible_no_space c.created h.2) in
      rw (id_ends, time_ends)

  entry_printed : entry_of (splitn 3 b' ' (print_entry c)) ≡ some c
  entry_printed = ap entry_of pieces ∙ good c.id c.created c.label h.0 h.1

entries_printed : (cs : List Checkpoint) → All IsCommit cs → entries (map print_entry cs) ≡ cs
entries_printed [] h = refl
entries_printed (c ∷ cs) h =
    ap (λ o. push_entry o (entries (map print_entry cs))) (entry_printed c h.0)
    ∙ ap (λ rest. c ∷ rest) (entries_printed cs h.1)

all_lines : (cs : List Checkpoint) → All IsCommit cs → All IsLine (map print_entry cs)
all_lines [] h = tt
all_lines (c ∷ cs) h = (printed-IsLine c h.0, all_lines cs h.1)

-- For checkpoints with a hash of 40 hexadecimal digits, a time without blanks and a label of one line
-- without control characters: the log that `list_cmd` asks git for reads back as these checkpoints, in
-- its order, labels with spaces included.
pub parse_log-printed :
    (cs : List Checkpoint)
    → All IsCommit cs
    → parse_log (join (codes "\n") (map print_entry cs)) ≡ cs
unfolding parse_log
parse_log-printed cs h =
    rw (lines-join (map print_entry cs) (all_lines cs h)) (entries_printed cs h)
