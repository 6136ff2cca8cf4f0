-- ===== src/Mcp/Label/Safe.antt =====
-- The characters and the length of a session's label (crates/execkit-mcp/src/main.rs).
use execkit.Base.{
  ℕ, zero, suc, ◌+◌, ◌^◌, ◌≤◌, ◌<◌, ◌≡◌, refl, Bool, true, false, ◌||◌, [], ◌∷◌, ◌++◌, Option, none,
  some, ◌==◌, all, map, take, length, length-append, is_empty, arith, Bool-cases, inl, inr,
}
use execkit.Text.Chars.{Text, codes, is_ascii_alphanumeric, is_ascii_digit, eq_text}
use execkit.Text.Decimal.{decimal}
use execkit.Text.Decimal.Length.{length-decimal}
use execkit.Text.Decimal.RoundTrip.{decimal-digits}
use execkit.Mcp.Params.{unwrap_or}
use execkit.Mcp.Label.{plain_or_underscore, some_text, sanitize, with_port, label_for}

abbrev pub is_id_char : ℕ → Bool
is_id_char b =
    is_ascii_alphanumeric b || b == b'@' || b == b'.' || b == b':' || b == b'_' || b == b'-'

-- At most `n` characters, all of them safe in an id.
abbrev pub IsSafe : ℕ → Text → Type 0
IsSafe n t = (all is_id_char t ≡ true) × (length t ≤ n)

all-append :
    (p : ℕ → Bool) (xs ys : Text) → all p xs ≡ true → all p ys ≡ true → all p (xs ++ ys) ≡ true
all-append p [] ys h k = k
all-append p (x ∷ xs) ys h k = ground (arith, all-append p xs ys)

pub IsSafe-append :
    (m n k : ℕ) (xs ys : Text) → m + n ≤ k → IsSafe m xs → IsSafe n ys → IsSafe k (xs ++ ys)
IsSafe-append m n k xs ys h a b =
    (all-append is_id_char xs ys a.0 b.0, omega (arith, length-append xs ys))

pub IsSafe-cons :
    (n : ℕ) (c : ℕ) (xs : Text) → is_id_char c ≡ true → IsSafe n xs → IsSafe (suc n) (c ∷ xs)
IsSafe-cons n c xs h a = (rw h a.0, omega arith)

plain-safe : (c : ℕ) → is_id_char (plain_or_underscore c) ≡ true
plain-safe c = ground arith

plain-IsSafe : (n : ℕ) (s : Text) → IsSafe n (take n (map plain_or_underscore s))
plain-IsSafe zero s = (refl, omega arith)
plain-IsSafe (suc n) [] = (refl, omega arith)
plain-IsSafe (suc n) (c ∷ cs) =
    IsSafe-cons n (plain_or_underscore c) (take n (map plain_or_underscore cs)) (plain-safe c)
      (plain-IsSafe n cs)

some_text-IsSafe : (t : Text) → IsSafe 40 t → IsSafe 40 (some_text t)
some_text-IsSafe [] h = (refl, omega arith)
some_text-IsSafe (c ∷ cs) h = h

sanitize-IsSafe : (s : Text) → IsSafe 40 (sanitize s)
unfolding sanitize
sanitize-IsSafe s = some_text-IsSafe (take 40 (map plain_or_underscore s)) (plain-IsSafe 40 s)

some_text-not_empty : (t : Text) → is_empty (some_text t) ≡ false
some_text-not_empty [] = refl
some_text-not_empty (c ∷ cs) = refl

pub sanitize-not_empty : (s : Text) → is_empty (sanitize s) ≡ false
unfolding sanitize
sanitize-not_empty s = some_text-not_empty (take 40 (map plain_or_underscore s))

digits-safe : (w : Text) → all is_ascii_digit w ≡ true → all is_id_char w ≡ true
digits-safe [] h = refl
digits-safe (c ∷ cs) h = ground (arith, digits-safe cs)

pub decimal-IsSafe : (k n : ℕ) → n < 10 ^ suc k → IsSafe (suc k) (decimal n)
decimal-IsSafe k n h = (digits-safe (decimal n) (decimal-digits n), length-decimal k n h)

-- A port, where there is one, is a `u16`.
abbrev pub IsPort : Option ℕ → Type 0
IsPort none = Unit
IsPort (some p) = p < 2 ^ 16

with_port-IsSafe :
    (name : Text) (port : Option ℕ) → IsPort port → IsSafe 85 name → IsSafe 91 (with_port name port)
with_port-IsSafe name none h s = (s.0, omega arith)
with_port-IsSafe name (some p) h s = elim (Bool-cases (p == 22)) [
  | inl e ↦ rw e (s.0, omega arith)
  | inr n ↦ rw n (
      IsSafe-append 85 6 91 name (b':' ∷ decimal p) (omega arith) s
        (IsSafe-cons 5 b':' (decimal p) refl (decimal-IsSafe 4 p (omega arith))))
]

-- Whatever the call says, a label is safe and short.
pub label_for-IsSafe :
    (transport : Text) (user host : Option Text) (port : Option ℕ) (container : Option Text)
    → IsPort port
    → IsSafe 91 (label_for transport user host port container)
unfolding label_for
label_for-IsSafe transport user host port container h =
    let u = sanitize (unwrap_or (codes "user") user) in
    let o = sanitize (unwrap_or (codes "host") host) in
    let c = sanitize (unwrap_or (codes "container") container) in
    elim (Bool-cases (eq_text transport (codes "ssh"))) [
      | inl e ↦ rw e (
          with_port-IsSafe (codes "ssh_" ++ (u ++ b'@' ∷ o)) port h (
            IsSafe-append 4 81 85 (codes "ssh_") (u ++ b'@' ∷ o) (omega arith) (refl, omega arith)
              (IsSafe-append 40 41 81 u (b'@' ∷ o) (omega arith)
                (sanitize-IsSafe (unwrap_or (codes "user") user))
                (IsSafe-cons 40 b'@' o refl (sanitize-IsSafe (unwrap_or (codes "host") host))))))
      | inr n ↦ elim (Bool-cases (eq_text transport (codes "docker"))) [
        | inl e ↦
            rw (n, e)
              (IsSafe-append 7 84 91 (codes "docker_") c (omega arith) (refl, omega arith)
                (
                  (sanitize-IsSafe (unwrap_or (codes "container") container)).0,
                  (let l = (sanitize-IsSafe (unwrap_or (codes "container") container)).1 in
                      omega arith),
                ))
        | inr m ↦ rw (n, m) (refl, omega arith)
      ]
    ]
