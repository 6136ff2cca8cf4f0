-- ===== src/Text/Chars.antt =====
-- Texts, bytes and the character classes of the standard library.
use Prim.Native.Char.{code}
use Prim.Native.String.{String}
use execkit.Base.{
  ℕ, ◌+◌, ◌≡◌, ◌↔◌, refl, Bool, true, false, ◌&&◌, ◌||◌, List, [], ◌∷◌, arith, within, ◌==◌, any,
  if◌then◌else◌,
}

-- `str` and `String`: Unicode scalar values. `&[u8]` and `Vec<u8>`: bytes.
abbrev pub Text : Type 0
Text = List ℕ

abbrev pub Bytes : Type 0
Bytes = List ℕ

-- The text of a literal.
abbrev pub codes : String → Text
codes String.[] = []
codes (String.◌∷◌ c s) = code c ∷ codes s

-- `char::is_whitespace`: the White_Space property.
unfoldable pub is_whitespace : ℕ → Bool
is_whitespace c =
    within 9 13 c
    || c == 32
    || c == 0x85
    || c == 0xA0
    || c == 0x1680
    || within 0x2000 0x200A c
    || c == 0x2028
    || c == 0x2029
    || c == 0x202F
    || c == 0x205F
    || c == 0x3000

abbrev pub is_ascii_digit : ℕ → Bool
is_ascii_digit c = within b'0' b'9' c

abbrev pub is_ascii_uppercase : ℕ → Bool
is_ascii_uppercase c = within b'A' b'Z' c

abbrev pub is_ascii_alphanumeric : ℕ → Bool
is_ascii_alphanumeric c = within b'a' b'z' c || within b'A' b'Z' c || within b'0' b'9' c

abbrev pub is_ascii_hexdigit : ℕ → Bool
is_ascii_hexdigit c = within b'0' b'9' c || within b'a' b'f' c || within b'A' b'F' c

abbrev pub to_ascii_lowercase : ℕ → ℕ
to_ascii_lowercase c = if within b'A' b'Z' c then c + 32 else c

-- `==` on texts and on byte strings.
unfoldable pub eq_text : List ℕ → List ℕ → Bool
eq_text [] [] = true
eq_text [] (y ∷ ys) = false
eq_text (x ∷ xs) [] = false
eq_text (x ∷ xs) (y ∷ ys) = x == y && eq_text xs ys

pub eq_text_iff : (xs ys : List ℕ) → (eq_text xs ys ≡ true) ↔ (xs ≡ ys)
unfolding eq_text
eq_text_iff [] [] = (λ _. refl, λ _. refl)
eq_text_iff [] (y ∷ ys) = (λ e. cc, λ e. cc)
eq_text_iff (x ∷ xs) [] = (λ e. cc, λ e. cc)
eq_text_iff (x ∷ xs) (y ∷ ys) =
    (λ e. ground (arith, eq_text_iff xs ys), λ e. ground (arith, eq_text_iff xs ys))

pub eq_text_self : (xs : List ℕ) → eq_text xs xs ≡ true
eq_text_self xs = (eq_text_iff xs xs).1 refl

unfoldable pub eq_ignore_ascii_case : Text → Text → Bool
eq_ignore_ascii_case [] [] = true
eq_ignore_ascii_case [] (y ∷ ys) = false
eq_ignore_ascii_case (x ∷ xs) [] = false
eq_ignore_ascii_case (x ∷ xs) (y ∷ ys) =
    to_ascii_lowercase x == to_ascii_lowercase y && eq_ignore_ascii_case xs ys

-- `hay.starts_with(needle)`, the needle first.
unfoldable pub starts_with : List ℕ → List ℕ → Bool
starts_with [] hay = true
starts_with (x ∷ xs) [] = false
starts_with (x ∷ xs) (y ∷ ys) = x == y && starts_with xs ys

-- `hay.contains(needle)` for a needle that is a text; a character is `any (λ c. c == k)`.
unfoldable pub contains_text : List ℕ → List ℕ → Bool
unfolding starts_with
contains_text needle [] = starts_with needle []
contains_text needle (x ∷ xs) = starts_with needle (x ∷ xs) || contains_text needle xs

abbrev pub begins_with : ℕ → Text → Bool
begins_with k [] = false
begins_with k (c ∷ cs) = c == k

abbrev pub ends_with : ℕ → Text → Bool
ends_with k [] = false
ends_with k (c ∷ []) = c == k
ends_with k (c ∷ d ∷ cs) = ends_with k (d ∷ cs)

abbrev pub contains_char : ℕ → Text → Bool
contains_char k = any (λ c. c == k)

-- `xs.contains(&x)` for a list of texts.
unfoldable pub mem_text : Text → List Text → Bool
unfolding eq_text
mem_text x = any (λ y. eq_text y x)
