-- ===== src/Session/Validate/Hash.antt =====
-- What `is_valid_checkpoint_id` of crates/execkit/src/session.rs lets pass.
use execkit.Base.{
  ℕ, ◌≤◌, ◌+◌, ◌/◌, ◌≡◌, ◌⊎◌, refl, sym, ap, ◌∙◌, Bool, true, false, [], ◌∷◌, ◌++◌, length, within,
  all, All, arith, ltb, Bool-cases, inl, inr, &&-true,
}
use execkit.Text.Chars.{Text, is_ascii_hexdigit}
use execkit.Text.Utf8.{as_bytes, encode_char}
use execkit.Session.Validate.{is_valid_checkpoint_id}

-- `0`-`9`, `A`-`F`, `a`-`f`.
abbrev pub IsHexDigit : ℕ → Type 0
IsHexDigit c = ((48 ≤ c) × (c ≤ 57)) ⊎ (((65 ≤ c) × (c ≤ 70)) ⊎ ((97 ≤ c) × (c ≤ 102)))

-- A commit hash or a prefix of one: 4 to 40 hexadecimal digits.
abbrev pub IsHash : Text → Type 0
IsHash id = (4 ≤ length id) × (length id ≤ 40) × All IsHexDigit id

all-append_parts :
    (p : ℕ → Bool) (xs ys : Text) → all p (xs ++ ys) ≡ true → (all p xs ≡ true) × (all p ys ≡ true)
all-append_parts p [] ys h = (refl, h)
all-append_parts p (x ∷ xs) ys h =
    let a = &&-true (p x) (all p (xs ++ ys)) h in
    let r = all-append_parts p xs ys a.1 in (rw (a.0, r.0) refl, r.1)

digit_of : (c : ℕ) → is_ascii_hexdigit c ≡ true → IsHexDigit c
digit_of c h = ground arith

-- A first byte of more than one is no digit.
lead_byte : (b : ℕ) → 192 ≤ b → is_ascii_hexdigit b ≡ false
lead_byte b h = ground arith

-- Digits stand for themselves.
encode_char-hex :
    (c : ℕ) → all is_ascii_hexdigit (encode_char c) ≡ true → (encode_char c ≡ c ∷ []) × IsHexDigit c
unfolding encode_char
encode_char-hex c h = elim (Bool-cases (ltb c 0x80)) [
  | inl l ↦ rw l (refl, digit_of c (&&-true (is_ascii_hexdigit c) true (rw l at h)).0)
  | inr l ↦ elim (Bool-cases (ltb c 0x800)) [
    | inl m ↦
        let n = lead_byte (0xC0 + c / 64) (omega arith) in absurd (let k = rw (l, m, n) at h in cc)
    | inr m ↦ elim (Bool-cases (ltb c 0x10000)) [
      | inl k ↦
          let n = lead_byte (0xE0 + c / 4096) (omega arith) in
          absurd (let k' = rw (l, m, k, n) at h in cc)
      | inr k ↦
          let n = lead_byte (0xF0 + c / 262144) (omega arith) in
          absurd (let k' = rw (l, m, k, n) at h in cc)
    ]
  ]
]

as_bytes-hex :
    (t : Text) → all is_ascii_hexdigit (as_bytes t) ≡ true → (as_bytes t ≡ t) × All IsHexDigit t
unfolding as_bytes
as_bytes-hex [] h = (refl, tt)
as_bytes-hex (c ∷ cs) h =
    let a = all-append_parts is_ascii_hexdigit (encode_char c) (as_bytes cs) h in
    let one = encode_char-hex c a.0 in
    let rest = as_bytes-hex cs a.1 in (rw (one.0, rest.0) refl, (one.1, rest.1))

pub is_valid_checkpoint_id-IsHash : (id : Text) → is_valid_checkpoint_id id ≡ true → IsHash id
unfolding is_valid_checkpoint_id
is_valid_checkpoint_id-IsHash id h =
    let a = &&-true (within 4 40 (length (as_bytes id))) (all is_ascii_hexdigit (as_bytes id)) h in
    let b = as_bytes-hex id a.1 in
    let n : within 4 40 (length id) ≡ true =
      ap (λ t. within 4 40 (length t)) (let e : id ≡ as_bytes id = sym b.0 in e) ∙ a.0 in
    (ground arith, ground arith, b.1)
