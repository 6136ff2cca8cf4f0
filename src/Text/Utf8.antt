-- ===== src/Text/Utf8.antt =====
-- UTF-8: `as_bytes`, and `String::from_utf8_lossy`, which puts U+FFFD for each maximal invalid part.
pub mod RoundTrip
use execkit.Base.{
  ℕ, zero, suc, ◌+◌, ◌-◌, ◌*◌, ◌/◌, ◌%◌, Bool, [], ◌∷◌, ◌++◌, ltb, ◌==◌, within, if◌then◌else◌,
  ◌&&◌, not, all, Option, none, some,
}
use execkit.Text.Chars.{Text, Bytes, eq_text}

-- The bytes of one scalar value.
unfoldable pub encode_char : ℕ → Bytes
encode_char c =
    if ltb c 0x80
    then c ∷ []
    else if ltb c 0x800
    then (0xC0 + c / 64) ∷ (0x80 + c % 64) ∷ []
    else if ltb c 0x10000
    then (0xE0 + c / 4096) ∷ (0x80 + c / 64 % 64) ∷ (0x80 + c % 64) ∷ []
    else (0xF0 + c / 262144) ∷ (0x80 + c / 4096 % 64) ∷ (0x80 + c / 64 % 64) ∷ (0x80 + c % 64) ∷ []

unfoldable pub as_bytes : Text → Bytes
unfolding encode_char
as_bytes [] = []
as_bytes (c ∷ cs) = encode_char c ++ as_bytes cs

abbrev is_cont : ℕ → Bool
is_cont b = within 0x80 0xBF b

-- The second byte that may follow `b` in a sequence of three or of four bytes.
abbrev second3 : ℕ → ℕ → Bool
second3 b c =
    if b == 0xE0 then within 0xA0 0xBF c else if b == 0xED then within 0x80 0x9F c else is_cont c

abbrev second4 : ℕ → ℕ → Bool
second4 b c =
    if b == 0xF0 then within 0x90 0xBF c else if b == 0xF4 then within 0x80 0x8F c else is_cont c

-- The decoder's state: the bytes still wanted, the value so far, and the test for the next byte.
pub data Decode : Type 0 where
  start : Decode
  want : ℕ → ℕ → (ℕ → Bool) → Decode

-- A first byte.
unfoldable pub first : ℕ → (Decode → Text) → Text
first b go =
    if ltb b 0x80
    then b ∷ go start
    else if within 0xC2 0xDF b
    then go (want 0 (b - 0xC0) is_cont)
    else if within 0xE0 0xEF b
    then go (want 1 (b - 0xE0) (second3 b))
    else if within 0xF0 0xF4 b
    then go (want 2 (b - 0xF0) (second4 b))
    else 0xFFFD ∷ go start

-- A byte that does not continue a sequence ends the invalid part before it, and is read afresh.
unfoldable pub decode : Decode → Bytes → Text
unfolding first
decode start [] = []
decode (want n v ok) [] = 0xFFFD ∷ []
decode start (b ∷ bs) = first b (λ d. decode d bs)
decode (want zero v ok) (b ∷ bs) =
    let rest = decode start bs in
    if ok b then (v * 64 + (b - 0x80)) ∷ rest else 0xFFFD ∷ first b (λ d. decode d bs)
decode (want (suc n) v ok) (b ∷ bs) =
    let rest = decode (want n (v * 64 + (b - 0x80)) is_cont) bs in
    if ok b then rest else 0xFFFD ∷ first b (λ d. decode d bs)

unfoldable pub from_utf8_lossy : Bytes → Text
unfolding decode
from_utf8_lossy = decode start

abbrev pub is_scalar : ℕ → Bool
is_scalar c = ltb c 0x110000 && not (within 0xD800 0xDFFF c)

-- `from_utf8`: the text whose bytes these are.
unfoldable pub from_utf8 : Bytes → Option Text
unfolding from_utf8_lossy as_bytes eq_text
from_utf8 bs =
    let t = from_utf8_lossy bs in
    if eq_text (as_bytes t) bs && all is_scalar t then some t else none
