-- ===== src/Framing/Base64.antt =====
-- `b64` of crates/execkit/src/framing.rs.
pub mod RoundTrip
use execkit.Base.{
  ℕ, zero, suc, ◌+◌, ◌-◌, ◌*◌, ◌/◌, ◌%◌, ◌^◌, ◌≡◌, refl, List, [], ◌∷◌, ◌++◌, get_or,
}
use execkit.Text.Chars.{Text, Bytes, codes}

abbrev alphabet : Text
alphabet = codes "ABCDEFGHIJKLMNOPQRSTUVWXYZabcdefghijklmnopqrstuvwxyz0123456789+/"

-- `A[i & 63]`: the mask keeps the index in range.
unfoldable pub letter : ℕ → ℕ
letter i = get_or alphabet (i % 64) b'?'

-- One chunk of up to three bytes; a missing byte counts as 0, and its letter is `=`.
unfoldable pub b64 : Bytes → Text
unfolding letter
b64 [] = []
b64 (a ∷ []) = let n = a * 65536 in letter (n / 262144) ∷ letter (n / 4096) ∷ b'=' ∷ b'=' ∷ []
b64 (a ∷ b ∷ []) =
    let n = a * 65536 + b * 256 in
    letter (n / 262144) ∷ letter (n / 4096) ∷ letter (n / 64) ∷ b'=' ∷ []
b64 (a ∷ b ∷ c ∷ rest) =
    let n = a * 65536 + b * 256 + c in
    letter (n / 262144) ∷ letter (n / 4096) ∷ letter (n / 64) ∷ letter n ∷ b64 rest
