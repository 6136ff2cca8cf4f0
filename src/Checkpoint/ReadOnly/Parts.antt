-- ===== src/Checkpoint/ReadOnly/Parts.antt =====
-- Which command is read-only, part by part.
use execkit.Base.{
  ℕ, Bool, true, false, not, ◌&&◌, ◌||◌, ◌≡◌, refl, sym, ◌==◌, List, [], ◌∷◌, ◌++◌, Bool-cases, inl,
  inr, arith, if◌then◌else◌, all, All, map,
}
use execkit.Text.Chars.{Text, codes, contains_char, contains_text, starts_with}
use execkit.Text.Split.{split}
use execkit.Text.Split.Laws.{split-append, split_whole, none_of}
use execkit.Checkpoint.ReadOnly.{can_hide, is_separator, is_read_only, read_only_segments}
use execkit.Checkpoint.ReadOnly.Word.{reads, is_read_only_segment_lem}

-- What a shell starts the next command after.
pub data Joint : Type 0 where
  pipe : Joint
  semicolon : Joint
  ampersand : Joint
  line_feed : Joint
  carriage_return : Joint

abbrev pub joint_char : Joint → ℕ
joint_char pipe = b'|'
joint_char semicolon = b';'
joint_char ampersand = b'&'
joint_char line_feed = 10
joint_char carriage_return = 13

-- A character that joins nothing.
abbrev pub IsInner : ℕ → Type 0
IsInner c =
    ((c == b'|') ≡ false)
    × ((c == b';') ≡ false)
    × ((c == b'&') ≡ false)
    × ((c == 10) ≡ false)
    × ((c == 13) ≡ false)

-- A first part, and others, each after its joint.
abbrev pub joined : Text → List (Joint × Text) → Text
joined part [] = part
joined part (next ∷ rest) = part ++ (joint_char next.0 ∷ joined next.1 rest)

-- A redirection, a backtick, `$(` or `<(` anywhere.
abbrev pub hides : Text → Bool
hides [] = false
hides (c ∷ []) = c == b'>' || c == b'`'
hides (c ∷ d ∷ cs) =
    c == b'>' || c == b'`' || (c == b'$' && d == b'(') || (c == b'<' && d == b'(') || hides (d ∷ cs)

one_char : (c : ℕ) → can_hide (c ∷ []) ≡ (c == b'>' || c == b'`')
unfolding contains_text starts_with
one_char c = ground arith

-- One more character in front, whatever the rest holds.
two_chars :
    (c d : ℕ) (gt paren tick less : Bool)
    → ((c == b'>' || gt)
        || ((b'$' == c && (b'(' == d && true)) || paren)
        || (c == b'`' || tick)
        || ((b'<' == c && (b'(' == d && true)) || less))
      ≡ (c == b'>'
          || c == b'`'
          || (c == b'$' && d == b'(')
          || (c == b'<' && d == b'(')
          || (gt || paren || tick || less))
two_chars c d gt paren tick less = ground arith

can_hide-hides : (cs : Text) → can_hide cs ≡ hides cs
unfolding contains_text starts_with
can_hide-hides [] = refl
can_hide-hides (c ∷ []) = one_char c
can_hide-hides (c ∷ d ∷ cs) = rw (sym (can_hide-hides (d ∷ cs))) (
    two_chars c d (contains_char b'>' (d ∷ cs)) (contains_text (codes "$(") (d ∷ cs))
      (contains_char b'`' (d ∷ cs)) (contains_text (codes "<(") (d ∷ cs)))

joint-IsSeparator : (j : Joint) → is_separator (joint_char j) ≡ true
joint-IsSeparator pipe = refl
joint-IsSeparator semicolon = refl
joint-IsSeparator ampersand = refl
joint-IsSeparator line_feed = refl
joint-IsSeparator carriage_return = refl

inner-none_of : (cs : Text) → All IsInner cs → none_of is_separator cs ≡ true
inner-none_of [] h = refl
inner-none_of (c ∷ cs) h = rw (h.0.0, h.0.1, h.0.2, h.0.3, h.0.4) (inner-none_of cs h.1)

abbrev pub part_of : Joint × Text → Text
part_of next = next.1

split-joined :
    (part : Text) (rest : List (Joint × Text))
    → All IsInner part
    → All (λ next. All IsInner (part_of next)) rest
    → split is_separator (joined part rest) ≡ part ∷ map part_of rest
split-joined part [] h hs = split_whole is_separator part (inner-none_of part h)
split-joined part ((j, next) ∷ rest) h hs = rw (
  split-append is_separator (joint_char j) part (joined next rest) (joint-IsSeparator j),
  split_whole is_separator part (inner-none_of part h),
  split-joined next rest hs.0 hs.1,
)

segments-reads :
    (rest : List (Joint × Text))
    → read_only_segments (map part_of rest) ≡ all (λ next. reads (part_of next)) rest
segments-reads [] = refl
segments-reads (next ∷ rest) = elim (Bool-cases (reads (part_of next))) [
  | inl e ↦ rw (is_read_only_segment_lem (part_of next), e) (segments-reads rest)
  | inr e ↦ rw (is_read_only_segment_lem (part_of next), e)
]

decided :
    (hidden : Bool) (part : Text) (rest : List (Joint × Text))
    → (if hidden then false else read_only_segments (part ∷ map part_of rest))
      ≡ (not hidden && reads part && all (λ next. reads (part_of next)) rest)
decided true part rest = refl
decided false part rest = elim (Bool-cases (reads part)) [
  | inl e ↦ rw (is_read_only_segment_lem part, e) (segments-reads rest)
  | inr e ↦ rw (is_read_only_segment_lem part, e)
]

-- Any command, taken as the parts that pipes, semicolons, ampersands and line ends join, is read-only
-- exactly when it has no redirection, backtick, `$(` or `<(` and each part is blank or has a first word
-- that is, without its folders, a program on the list of those that only read.
pub is_read_only-joined :
    (part : Text) (rest : List (Joint × Text))
    → All IsInner part
    → All (λ next. All IsInner (part_of next)) rest
    → is_read_only (joined part rest)
      ≡ (not (hides (joined part rest)) && reads part && all (λ next. reads (part_of next)) rest)
unfolding is_read_only
is_read_only-joined part rest h hs =
    rw (can_hide-hides (joined part rest), split-joined part rest h hs)
      (decided (hides (joined part rest)) part rest)
