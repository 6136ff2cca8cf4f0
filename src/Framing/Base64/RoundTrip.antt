-- ===== src/Framing/Base64/RoundTrip.antt =====
-- The encoder against a decoder of the standard alphabet (the shell's `base64 -d`).
use execkit.Base.{
  every, every-lt, ℕ, ◌+◌, ◌-◌, ◌*◌, ◌/◌, ◌%◌, ◌<◌, ◌≡◌, refl, ap, Bool, true, false, ◌&&◌, [], ◌∷◌,
  arith, within, ◌==◌, All, if◌then◌else◌, get_or,
}
use execkit.Text.Chars.{Text, Bytes}
use execkit.Framing.Base64.{alphabet, letter, b64}
use mathlib.Core.Path.{ap₂}

-- The value of a letter, by the ranges of RFC 4648.
value : ℕ → ℕ
value c =
    if within b'A' b'Z' c
    then c - b'A'
    else if within b'a' b'z' c
    then c - b'a' + 26
    else if within b'0' b'9' c
    then c - b'0' + 52
    else if c == b'+'
    then 62
    else 63

-- Groups of four letters; `=` stands for a byte that is not there.
unfoldable pub decode64 : Text → Bytes
unfolding value
decode64 (p ∷ q ∷ r ∷ s ∷ rest) =
    let n = value p * 262144 + value q * 4096 in
    let n3 = n + value r * 64 in
    let more = decode64 rest in
    if r == b'='
    then n / 65536 ∷ []
    else if s == b'='
    then n3 / 65536 ∷ n3 / 256 % 256 ∷ []
    else n3 / 65536 ∷ n3 / 256 % 256 ∷ (n3 + value s) % 256 ∷ more
decode64 _ = []

-- Every letter stands for its own number and is not the padding.
abbrev reads_back : ℕ → Bool
reads_back i = value (letter i) == i && (if letter i == b'=' then false else true)

letter_table : every reads_back 64 ≡ true
unfolding every value letter
letter_table = refl

letter_mod : (n : ℕ) → letter (n % 64) ≡ letter n
unfolding letter
letter_mod n = let e : n % 64 % 64 ≡ n % 64 = omega arith in ap (λ i. get_or alphabet i b'?') e

of_reads_back :
    (c k : ℕ)
    → (value c == k && (if c == b'=' then false else true)) ≡ true
    → (value c ≡ k) × ((c == b'=') ≡ false)
of_reads_back c k h = ground arith

letter_facts : (n : ℕ) → (value (letter n) ≡ n % 64) × ((letter n == b'=') ≡ false)
letter_facts n =
    let t =
      of_reads_back (letter (n % 64)) (n % 64)
        (every-lt reads_back 64 (n % 64) (omega arith) letter_table) in
    rw (letter_mod n) at t

value-letter : (n : ℕ) → value (letter n) ≡ n % 64
value-letter n = (letter_facts n).0

letter-ne_pad : (n : ℕ) → (letter n == b'=') ≡ false
letter-ne_pad n = (letter_facts n).1

ruleset letters = (value-letter, letter-ne_pad)

abbrev IsByte : ℕ → Type 0
IsByte b = b < 256

-- Decoding what `b64` wrote gives the bytes back, whatever they are.
pub decode64-b64 : (bytes : Bytes) → All IsByte bytes → decode64 (b64 bytes) ≡ bytes
unfolding decode64 b64
decode64-b64 [] h = refl
decode64-b64 (a ∷ []) h = simp letters (ap (λ x. x ∷ []) (omega arith))
decode64-b64 (a ∷ b ∷ []) h = simp letters (ap₂ (λ x y. x ∷ y ∷ []) (omega arith) (omega arith))
decode64-b64 (a ∷ b ∷ c ∷ rest) h =
    simp (letters, decode64-b64 rest h.1.1.1) (ap₃ (omega arith) (omega arith) (omega arith))
  where
    ap₃ :
        {x y z x' y' z' : ℕ} {l : Bytes}
        → x ≡ x'
        → y ≡ y'
        → z ≡ z'
        → x ∷ y ∷ z ∷ l ≡ x' ∷ y' ∷ z' ∷ l
    ap₃ p q r = cc
