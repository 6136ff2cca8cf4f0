-- ===== src/Mcp/Watch/Web/Listed.antt =====
-- The viewer's history (crates/execkit-mcp/src/watch/web.rs) reads the file names that the server
-- (crates/execkit-mcp/src/main.rs) gives its audit logs.
use execkit.Base.{
  ℕ, ◌-◌, ◌^◌, ◌≤◌, ◌<◌, ◌≡◌, refl, ap, ◌∙◌, true, false, [], ◌∷◌, ◌++◌, Option, some, ltb, all,
  length, length-append, leb, arith, Bool-cases, inl, inr,
}
use execkit.Text.Chars.{
  Text, codes, is_ascii_alphanumeric, is_ascii_hexdigit, eq_text, eq_text_iff, eq_text_self,
}
use execkit.Text.Utf8.{as_bytes}
use execkit.Text.Decimal.{decimal}
use execkit.Text.Decimal.RoundTrip.{decimal-digits, parse_unsigned-decimal}
use execkit.Session.Validate.Tail.{rsplit_once-append}
use execkit.Mcp.Label.{label_for, session_id, file_stem, audit_file}
use execkit.Mcp.Label.Ids.{digits_lack}
use execkit.Mcp.Label.Safe.{
  is_id_char, IsSafe, IsSafe-append, IsSafe-cons, IsPort, decimal-IsSafe, label_for-IsSafe,
}
use execkit.Mcp.Watch.Web.{
  Entry, SessionInfo, id_ok, strip_suffix_text, split_label, last_of, or_zero, session_info,
  info_of_stem, info_if,
}

as_bytes_safe : (w : Text) → all is_id_char w ≡ true → as_bytes w ≡ w
unfolding as_bytes execkit.Text.Utf8.encode_char
as_bytes_safe [] h = refl
as_bytes_safe (c ∷ cs) h =
    let low : ltb c 0x80 ≡ true = ground arith in
    let rest : all is_id_char cs ≡ true = ground arith in rw (low, as_bytes_safe cs rest) refl

-- A safe text that begins with a letter or a digit and is not too long passes as an id.
id_ok_safe :
    (c : ℕ) (cs : Text)
    → is_ascii_alphanumeric c ≡ true
    → IsSafe 128 (c ∷ cs)
    → id_ok (c ∷ cs) ≡ true
unfolding id_ok
id_ok_safe c cs h s =
    let fits : leb (length (c ∷ cs)) 128 ≡ true = let l = s.1 in ground arith in
    rw (as_bytes_safe (c ∷ cs) s.0) (rw (fits, s.0, h) refl)

hex-safe : (w : Text) → all is_ascii_hexdigit w ≡ true → all is_id_char w ≡ true
hex-safe [] h = refl
hex-safe (c ∷ cs) h =
    let hc : is_id_char c ≡ true = ground arith in
    let hs : all is_ascii_hexdigit cs ≡ true = ground arith in rw (hc, hex-safe cs hs) refl

not-eq_longer : (xs s : Text) (c : ℕ) → eq_text (c ∷ (xs ++ s)) s ≡ false
not-eq_longer xs s c = elim (Bool-cases (eq_text (c ∷ (xs ++ s)) s)) [
  | inr n ↦ n
  | inl e ↦
      let same = ap length ((eq_text_iff (c ∷ (xs ++ s)) s).0 e) in
      absurd (omega (arith, length-append xs s))
]

strip_suffix_text-append :
    (xs : Text) (k : ℕ) (ks : Text) → strip_suffix_text (k ∷ ks) (xs ++ k ∷ ks) ≡ some xs
unfolding strip_suffix_text
strip_suffix_text-append [] k ks = rw (eq_text_self (k ∷ ks)) refl
strip_suffix_text-append (x ∷ xs) k ks =
    rw (not-eq_longer xs (k ∷ ks) x, strip_suffix_text-append xs k ks) refl

-- A server's run: four hexadecimal digits.
abbrev pub IsRun : Text → Type 0
IsRun run = (all is_ascii_hexdigit run ≡ true) × (length run ≡ 4)

id-IsSafe :
    (run : Text) (n : ℕ) (label : Text)
    → IsRun run
    → n < 10 ^ 17
    → IsSafe 91 label
    → IsSafe 114 (session_id run n label)
unfolding session_id
id-IsSafe run n label r h s =
    IsSafe-append 4 110 114 run (b'-' ∷ (decimal n ++ b'_' ∷ label)) (omega arith)
      (hex-safe run r.0, omega arith)
      (IsSafe-cons 109 b'-' (decimal n ++ b'_' ∷ label) refl (
        IsSafe-append 17 92 109 (decimal n) (b'_' ∷ label) (omega arith) (decimal-IsSafe 16 n h)
          (IsSafe-cons 91 b'_' label refl s)))

stem-IsSafe : (id : Text) (ms : ℕ) → ms < 10 ^ 13 → IsSafe 114 id → IsSafe 128 (file_stem id ms)
unfolding file_stem
stem-IsSafe id ms h s =
    IsSafe-append 114 14 128 id (b'-' ∷ decimal ms) (omega arith) s
      (IsSafe-cons 13 b'-' (decimal ms) refl (decimal-IsSafe 12 ms h))

id_ok-id :
    (run : Text) (n : ℕ) (label : Text)
    → IsRun run
    → IsSafe 128 (session_id run n label)
    → id_ok (session_id run n label) ≡ true
unfolding session_id
id_ok-id [] n label r s = absurd (omega arith)
id_ok-id (c ∷ cs) n label r s =
    let alnum : is_ascii_alphanumeric c ≡ true = ground arith in
    id_ok_safe c (cs ++ b'-' ∷ (decimal n ++ b'_' ∷ label)) alnum s

id_ok-stem :
    (run : Text) (n : ℕ) (label : Text) (ms : ℕ)
    → IsRun run
    → IsSafe 128 (file_stem (session_id run n label) ms)
    → id_ok (file_stem (session_id run n label) ms) ≡ true
unfolding session_id file_stem
id_ok-stem [] n label ms r s = absurd (omega arith)
id_ok-stem (c ∷ cs) n label ms r s =
    let alnum : is_ascii_alphanumeric c ≡ true = ground arith in
    id_ok_safe c ((cs ++ b'-' ∷ (decimal n ++ b'_' ∷ label)) ++ b'-' ∷ decimal ms) alnum s

weaken : (m n : ℕ) (t : Text) → m ≤ n → IsSafe m t → IsSafe n t
weaken m n t h s = (s.0, (let l = s.1 in omega arith))

-- The row of the history for a log of the session `id` opened at `ms`.
unfoldable pub row_of : Entry → Text → ℕ → SessionInfo
unfolding split_label file_stem
row_of e id ms = record {
  key = file_stem id ms;
  id = id;
  label = (split_label id).1;
  transport = (split_label id).0;
  started_ms = ms;
  last_ms = last_of ms e.modified;
  size = or_zero e.size;
}

info_of-decimal :
    (e : Entry) (id : Text) (ms : ℕ)
    → ms < 10 ^ 13
    → id_ok id ≡ true
    → info_if e (file_stem id ms) (some (id, decimal ms)) ≡ some (row_of e id ms)
unfolding row_of file_stem split_label
info_of-decimal e id ms h ok =
    let fits : ms ≤ 2 ^ 64 - 1 = omega arith in
    rw (ok, parse_unsigned-decimal (2 ^ 64 - 1) ms fits) refl

info_of_stem-decimal :
    (e : Entry) (id : Text) (ms : ℕ)
    → ms < 10 ^ 13
    → id_ok id ≡ true
    → info_of_stem e (some (file_stem id ms)) ≡ some (row_of e id ms)
unfolding file_stem
info_of_stem-decimal e id ms h ok =
    ap (info_if e (file_stem id ms)) (
      rsplit_once-append b'-' id (decimal ms)
        (digits_lack b'-' (decimal ms) refl (decimal-digits ms)))
    ∙ info_of-decimal e id ms h ok

session_info-named :
    (e : Entry) (id : Text) (ms : ℕ)
    → e.name ≡ audit_file id ms
    → ms < 10 ^ 13
    → id_ok id ≡ true
    → session_info e ≡ some (row_of e id ms)
unfolding session_info audit_file
session_info-named e id ms named h ok =
    ap (λ n. info_of_stem e (strip_suffix_text (codes ".jsonl") n)) named
    ∙ (ap (info_of_stem e) (strip_suffix_text-append (file_stem id ms) b'.' (codes "jsonl"))
        ∙ info_of_stem-decimal e id ms h ok)

-- For a run of four hexadecimal digits, a session number below 10 ^ 17, a `u16` port where there is one and
-- an opening time below 10 ^ 13 ms, whatever transport, user, host and container the call names: the
-- history lists the log that the server opens for the session, under the session's own id and opening
-- time, and the key of its row passes the check of the transcript's route.
pub session_info-audit_file :
    (run : Text) (n : ℕ) (transport : Text) (user host : Option Text) (port : Option ℕ)
    (container : Option Text) (ms : ℕ) (e : Entry)
    → IsRun run
    → n < 10 ^ 17
    → IsPort port
    → ms < 10 ^ 13
    → e.name ≡ audit_file (session_id run n (label_for transport user host port container)) ms
    → (session_info e
        ≡ some (row_of e (session_id run n (label_for transport user host port container)) ms))
      × (id_ok (file_stem (session_id run n (label_for transport user host port container)) ms)
          ≡ true)
session_info-audit_file run n transport user host port container ms e r hn hp hms named =
    let label = label_for transport user host port container in
    let safe =
      id-IsSafe run n label r hn (label_for-IsSafe transport user host port container hp) in
    let wide = weaken 114 128 (session_id run n label) (omega arith) safe in
    (
      session_info-named e (session_id run n label) ms named hms (id_ok-id run n label r wide),
      id_ok-stem run n label ms r (stem-IsSafe (session_id run n label) ms hms safe),
    )
