-- ===== src/Mcp/Label/Ids.antt =====
-- Session ids (crates/execkit-mcp/src/main.rs) are told apart by their numbers.
use execkit.Base.{
  ℕ, ◌+◌, ◌≡◌, refl, sym, ap, ◌∙◌, [], ◌∷◌, ◌++◌, some, ◌==◌, all, true, false, arith,
}
use execkit.Text.Chars.{Text, is_ascii_digit}
use execkit.Text.Decimal.{decimal, parse_unsigned}
use execkit.Text.Decimal.RoundTrip.{decimal-digits, parse_unsigned-decimal}
use execkit.Text.Split.{split_once}
use execkit.Text.Split.Laws.{none_of, split_once-append}
use execkit.Mcp.Label.{session_id}

drop_front : (run xs ys : Text) → run ++ xs ≡ run ++ ys → xs ≡ ys
drop_front [] xs ys e = e
drop_front (c ∷ cs) xs ys e = drop_front cs xs ys (cc)

pub digits_lack :
    (k : ℕ) (w : Text)
    → is_ascii_digit k ≡ false
    → all is_ascii_digit w ≡ true
    → none_of (λ c. c == k) w ≡ true
digits_lack k [] n h = refl
digits_lack k (c ∷ cs) n h =
    let hs : all is_ascii_digit cs ≡ true = ground arith in
    rw (digits_lack k cs n hs) (ground arith)

decimal-injective : (n m : ℕ) → decimal n ≡ decimal m → n ≡ m
decimal-injective n m e =
    let a = parse_unsigned-decimal (n + m) n (omega arith) in
    let b = parse_unsigned-decimal (n + m) m (omega arith) in
    let c : some n ≡ some m = sym a ∙ (ap (parse_unsigned (n + m)) e ∙ b) in ground arith

abbrev behind_dash : Text → Text
behind_dash [] = []
behind_dash (c ∷ cs) = cs

abbrev until_underscore : Text → Text
until_underscore t = (split_once (λ c. c == b'_') t).0

until_underscore-decimal :
    (n : ℕ) (label : Text) → until_underscore (decimal n ++ b'_' ∷ label) ≡ decimal n
until_underscore-decimal n label =
    ap (λ r. r.0)
      (split_once-append (λ c. c == b'_') b'_' (decimal n) label refl
        (digits_lack b'_' (decimal n) refl (decimal-digits n)))

pub session_id-num :
    (run : Text) (n m : ℕ) (label label' : Text)
    → session_id run n label ≡ session_id run m label'
    → n ≡ m
unfolding session_id
session_id-num run n m label label' e =
    let front =
      drop_front run (b'-' ∷ (decimal n ++ b'_' ∷ label)) (b'-' ∷ (decimal m ++ b'_' ∷ label')) e in
    decimal-injective n m (
      sym (until_underscore-decimal n label)
      ∙ (ap (λ t. until_underscore (behind_dash t)) front ∙ until_underscore-decimal m label'))
