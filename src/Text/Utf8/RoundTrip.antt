-- ===== src/Text/Utf8/RoundTrip.antt =====
-- Encoding a text and decoding it gives the text back.
use native.Mathlib.Decide.{dec_lt}
use execkit.Base.{
  ℕ, ◌+◌, ◌-◌, ◌*◌, ◌/◌, ◌%◌, ◌≤◌, ◌<◌, ◌≡◌, refl, ap, ◌∙◌, Bool, true, false, [], ◌∷◌, ◌++◌, arith,
  ltb, within, append_assoc, all, All, All-append, lt→ltb,
}
use execkit.Text.Chars.{Text, Bytes}
use execkit.Text.Utf8.{
  Decode, start, want, encode_char, as_bytes, first, decode, from_utf8_lossy, second4,
}

-- What Rust's `char` holds.
abbrev pub IsScalar : ℕ → Type 0
IsScalar c = (c < 0x110000) × (within 0xD800 0xDFFF c ≡ false)

abbrev pub IsByte : ℕ → Type 0
IsByte b = b < 256

decode1 : (c : ℕ) (rest : Bytes) → c < 0x80 → decode start (c ∷ rest) ≡ c ∷ decode start rest
unfolding decode first
decode1 c rest h = ground arith

decode2 :
    (c : ℕ) (rest : Bytes)
    → 0x80 ≤ c
    → c < 0x800
    → decode start ((0xC0 + c / 64) ∷ (0x80 + c % 64) ∷ rest) ≡ c ∷ decode start rest
unfolding decode first
decode2 c rest h k = ground arith

decode3 :
    (c : ℕ) (rest : Bytes)
    → 0x800 ≤ c
    → c < 0x10000
    → within 0xD800 0xDFFF c ≡ false
    → decode start ((0xE0 + c / 4096) ∷ (0x80 + c / 64 % 64) ∷ (0x80 + c % 64) ∷ rest)
      ≡ c ∷ decode start rest
unfolding decode first
decode3 c rest h k s = ground arith

first4 :
    (a : ℕ) (go : Decode → Text)
    → a < 5
    → first (0xF0 + a) go ≡ go (want 2 (0xF0 + a - 0xF0) (second4 (0xF0 + a)))
unfolding first
first4 a go h = ground arith

last3 :
    (v p q r : ℕ) (ok : ℕ → Bool) (rest : Bytes)
    → p < 64
    → q < 64
    → r < 64
    → ok (0x80 + p) ≡ true
    → decode (want 2 v ok) ((0x80 + p) ∷ (0x80 + q) ∷ (0x80 + r) ∷ rest)
      ≡ (((v * 64 + (0x80 + p - 0x80)) * 64 + (0x80 + q - 0x80)) * 64 + (0x80 + r - 0x80))
        ∷ decode start rest
unfolding decode
last3 v p q r ok rest hp hq hr h = rw h (ground arith)

second4_ok :
    (a p : ℕ)
    → a < 5
    → p < 64
    → (a ≡ 0 → 16 ≤ p)
    → (a ≡ 4 → p < 16)
    → second4 (0xF0 + a) (0x80 + p) ≡ true
second4_ok a p ha hp h0 h4 = ground arith

decode4 :
    (c : ℕ) (rest : Bytes)
    → 0x10000 ≤ c
    → c < 0x110000
    → decode start (
        (0xF0 + c / 262144)
        ∷ (0x80 + c / 4096 % 64)
        ∷ (0x80 + c / 64 % 64)
        ∷ (0x80 + c % 64)
        ∷ rest)
      ≡ c ∷ decode start rest
unfolding decode
decode4 c rest h k =
    first4 (c / 262144)
      (λ d. decode d ((0x80 + c / 4096 % 64) ∷ (0x80 + c / 64 % 64) ∷ (0x80 + c % 64) ∷ rest))
      (omega arith)
    ∙ (last3 (0xF0 + c / 262144 - 0xF0) (c / 4096 % 64) (c / 64 % 64) (c % 64)
          (second4 (0xF0 + c / 262144)) rest (omega arith) (omega arith) (omega arith)
          (second4_ok (c / 262144) (c / 4096 % 64) (omega arith) (omega arith) (λ e. omega arith)
            (λ e. omega arith))
        ∙ ap (λ x. x ∷ decode start rest) (omega arith))

-- Code points below the surrogates.
pub IsScalar-small : (t : Text) → all (λ c. ltb c 0xD800) t ≡ true → All IsScalar t
IsScalar-small [] h = tt
IsScalar-small (c ∷ cs) h =
    let small : ltb c 0xD800 ≡ true = ground arith in
    let rest : all (λ c. ltb c 0xD800) cs ≡ true = ground arith in
    ((ground arith, ground arith), IsScalar-small cs rest)

encode_char-bytes : (c : ℕ) → IsScalar c → All IsByte (encode_char c)
unfolding encode_char
encode_char-bytes c h = ground arith

pub as_bytes-bytes : (t : Text) → All IsScalar t → All IsByte (as_bytes t)
unfolding as_bytes
as_bytes-bytes [] h = tt
as_bytes-bytes (c ∷ t) h =
    All-append IsByte (encode_char c) (as_bytes t) (encode_char-bytes c h.0) (as_bytes-bytes t h.1)

decode-encode_char :
    (c : ℕ) (rest : Bytes)
    → IsScalar c
    → decode start (encode_char c ++ rest) ≡ c ∷ decode start rest
unfolding encode_char
decode-encode_char c rest s = elim (dec_lt c 0x80) [
  | yes h ↦ rw (lt→ltb c 0x80 h) (decode1 c rest h)
  | no h ↦ elim (dec_lt c 0x800) [
    | yes k ↦ rw (ge→ltb c 0x80 (omega arith), lt→ltb c 0x800 k) (decode2 c rest (omega arith) k)
    | no k ↦ elim (dec_lt c 0x10000) [
      | yes l ↦
          rw (ge→ltb c 0x80 (omega arith), ge→ltb c 0x800 (omega arith), lt→ltb c 0x10000 l)
            (decode3 c rest (omega arith) l s.1)
      | no l ↦
          rw
            (
              ge→ltb c 0x80 (omega arith),
              ge→ltb c 0x800 (omega arith),
              ge→ltb c 0x10000 (omega arith),
            )
            (decode4 c rest (omega arith) s.0)
    ]
  ]
]
  where
    ge→ltb : (a b : ℕ) → b ≤ a → ltb a b ≡ false
    ge→ltb a b h = ground arith

pub from_utf8_lossy-as_bytes : (t : Text) → All IsScalar t → from_utf8_lossy (as_bytes t) ≡ t
unfolding from_utf8_lossy as_bytes
from_utf8_lossy-as_bytes [] h = refl
from_utf8_lossy-as_bytes (c ∷ t) h =
    decode-encode_char c (as_bytes t) h.0 ∙ ap (◌∷◌ c) (from_utf8_lossy-as_bytes t h.1)

pub as_bytes-append : (xs ys : Text) → as_bytes (xs ++ ys) ≡ as_bytes xs ++ as_bytes ys
unfolding as_bytes
as_bytes-append [] ys = refl
as_bytes-append (x ∷ xs) ys = rw (as_bytes-append xs ys, append_assoc) refl

pub from_utf8_lossy-append :
    (t : Text) (rest : Bytes)
    → All IsScalar t
    → from_utf8_lossy (as_bytes t ++ rest) ≡ t ++ from_utf8_lossy rest
unfolding from_utf8_lossy as_bytes
from_utf8_lossy-append [] rest h = refl
from_utf8_lossy-append (c ∷ t) rest h =
    rw (append_assoc (encode_char c) (as_bytes t) rest) (
      decode-encode_char c (as_bytes t ++ rest) h.0
      ∙ ap (◌∷◌ c) (from_utf8_lossy-append t rest h.1))
