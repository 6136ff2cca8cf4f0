-- ===== src/Transport/Handshake/Ready.antt =====
-- The handshake decides on what the shell has printed, not on how it was cut into chunks.
use execkit.Base.{
  ℕ, suc, sym, ◌*◌, ◌-◌, ◌^◌, Option, some, ◌≡◌, refl, ap, ◌∙◌, true, false, ◌&&◌, List, [], ◌∷◌,
  ◌++◌, none, length, leb, is_empty, if◌then◌else◌, arith, Bool-cases, inl, inr, &&-true,
  length-append, append_assoc, append-nil,
}
use execkit.Text.Chars.{Bytes, codes, starts_with, contains_text}
use execkit.Error.{Error, Result, ok, err}
use execkit.Transport.Handshake.{
  contains, ready, init_line, is_refused, timed_out, disconnected, no_decoder, init_loop, Wait,
  gives, nothing, shell_init,
}

starts_with-append : (n xs ys : Bytes) → starts_with n xs ≡ true → starts_with n (xs ++ ys) ≡ true
unfolding starts_with
starts_with-append [] xs ys h = refl
starts_with-append (k ∷ ks) [] ys h = cc
starts_with-append (k ∷ ks) (x ∷ xs) ys h = ground (arith, starts_with-append ks xs ys)

contains_text-append :
    (n xs ys : Bytes)
    → is_empty n ≡ false
    → contains_text n xs ≡ true
    → contains_text n (xs ++ ys) ≡ true
unfolding contains_text
contains_text-append [] xs ys e h = cc
contains_text-append (k ∷ ks) [] ys e h = cc
contains_text-append (k ∷ ks) (x ∷ xs) ys e h =
    ground
      (arith, starts_with-append (k ∷ ks) (x ∷ xs) ys, contains_text-append (k ∷ ks) xs ys refl)

-- What is found stays found.
contains-append : (n xs ys : Bytes) → contains xs n ≡ true → contains (xs ++ ys) n ≡ true
unfolding contains
contains-append [] xs ys h = cc
contains-append (k ∷ ks) xs ys h =
    let a = &&-true (leb (length (k ∷ ks)) (length xs)) (contains_text (k ∷ ks) xs) h in
    let fits : leb (length (k ∷ ks)) (length (xs ++ ys)) ≡ true =
      let l = a.0 in ground (arith, length-append xs ys) in
    rw (fits, contains_text-append (k ∷ ks) xs ys refl a.1) refl

is_refused-append : (xs ys : Bytes) → is_refused xs ≡ true → is_refused (xs ++ ys) ≡ true
is_refused-append xs ys h = ground (
  arith,
  contains-append (codes "EXECKITrdy9f3a7c\n") xs ys,
  contains-append (codes "EXECKITrdy9f3a7c\r") xs ys,
)

-- Chunks that come before the deadline passes: each leaves some time.
abbrev pub in_time : List (Bytes × ℕ) → List Wait
in_time [] = []
in_time ((c, spare) ∷ cs) = gives c (suc spare) ∷ in_time cs

abbrev pub bytes_of : List (Bytes × ℕ) → Bytes
bytes_of [] = []
bytes_of ((c, spare) ∷ cs) = c ++ bytes_of cs

-- How it ends: nothing comes in a wait, or a last chunk comes and leaves no time.
abbrev pub ending : Option Bytes → List Wait
ending none = nothing ∷ []
ending (some c) = gives c 0 ∷ []

abbrev pub last_bytes : Option Bytes → Bytes
last_bytes none = []
last_bytes (some c) = c

abbrev pub given_up : Option Bytes → Error
given_up none = disconnected
given_up (some c) = timed_out

abbrev pub verdict : Bytes → Option Bytes → Result (Unit {0})
verdict printed last =
    if contains printed ready
    then ok tt
    else if is_refused printed
    then err no_decoder
    else err (given_up last)

loop-end :
    (acc : Bytes) (last : Option Bytes) (spare : ℕ)
    → contains acc ready ≡ false
    → is_refused acc ≡ false
    → init_loop acc (suc spare) (ending last) ≡ verdict (acc ++ last_bytes last) last
unfolding init_loop
loop-end acc none spare r n = rw (append-nil acc) (rw (r, n) refl)
loop-end acc (some c) spare r n = refl

abbrev step_result : Bytes → Result (Unit {0}) → Result (Unit {0})
step_result acc rest =
    if contains acc ready then ok tt else if is_refused acc then err no_decoder else rest

loop-chunk :
    (acc c : Bytes) (spare spare' : ℕ) (waits : List Wait)
    → init_loop acc (suc spare) (gives c (suc spare') ∷ waits)
      ≡ step_result (acc ++ c) (init_loop (acc ++ c) (suc spare') waits)
unfolding init_loop
loop-chunk acc c spare spare' waits = refl

loop-verdict :
    (acc : Bytes) (spare : ℕ) (cs : List (Bytes × ℕ)) (last : Option Bytes)
    → contains acc ready ≡ false
    → is_refused acc ≡ false
    → (contains (acc ++ (bytes_of cs ++ last_bytes last)) ready
        && is_refused (acc ++ (bytes_of cs ++ last_bytes last)))
      ≡ false
    → init_loop acc (suc spare) (in_time cs ++ ending last)
      ≡ verdict (acc ++ (bytes_of cs ++ last_bytes last)) last
loop-verdict acc spare [] last r n once = loop-end acc last spare r n
loop-verdict acc spare ((c, spare') ∷ cs) last r n once =
    let s = acc ++ c in
    let more = bytes_of cs ++ last_bytes last in
    let rest = in_time cs ++ ending last in
    let whole : acc ++ ((c ++ bytes_of cs) ++ last_bytes last) ≡ s ++ more =
      ap (◌++◌ acc) (append_assoc c (bytes_of cs) (last_bytes last))
      ∙ sym (append_assoc acc c more) in
    let one : (contains (s ++ more) ready && is_refused (s ++ more)) ≡ false =
      ap (λ t. contains t ready && is_refused t) (sym whole) ∙ once in
    let goal : step_result s (init_loop s (suc spare') rest) ≡ verdict (s ++ more) last =
      elim (Bool-cases (contains s ready)) [
        | inl h ↦ rw (h, contains-append ready s more h) refl
        | inr h ↦ elim (Bool-cases (is_refused s)) [
          | inl b ↦
              let rb = is_refused-append s more b in
              let no : contains (s ++ more) ready ≡ false = ground arith in rw (h, b, no, rb) refl
          | inr b ↦ rw (h, b) (loop-verdict s spare' cs last h b one)
        ]
      ] in
    loop-chunk acc c spare spare' rest ∙ (goal ∙ ap (λ t. verdict t last) (sym whole))

undecided : (contains [] ready ≡ false) × (is_refused [] ≡ false)
unfolding contains
undecided = (refl, refl)

-- The handshake's result is a matter of what the shell prints until a wait gives nothing or a chunk
-- leaves no time, however that is cut into chunks: it succeeds exactly if the ready tag is in it, and
-- says that a decoder is missing exactly if the other tag is. Otherwise the error is "disconnected" where
-- a wait gives nothing, be the channel closed or the deadline passed in it, and "timed out" only where
-- the last chunk leaves no time. The shell prints at most one of the two tags.
pub shell_init-verdict :
    (cs : List (Bytes × ℕ)) (last : Option Bytes)
    → (contains (bytes_of cs ++ last_bytes last) ready
        && is_refused (bytes_of cs ++ last_bytes last))
      ≡ false
    → shell_init none (in_time cs ++ ending last)
      ≡ (init_line ∷ [], verdict (bytes_of cs ++ last_bytes last) last)
unfolding shell_init
shell_init-verdict cs last once =
    ap (λ r. (init_line ∷ [], r))
      (loop-verdict [] (8 * 10 ^ 9 - 1) cs last undecided.0 undecided.1 once)
