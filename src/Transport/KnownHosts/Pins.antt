-- ===== src/Transport/KnownHosts/Pins.antt =====
-- Trust on first use (crates/execkit/src/transport/ssh.rs): what an accepted key does to later checks.
use execkit.Base.{
  ℕ, ◌⊎◌, ◌≡◌, refl, sym, ap, ◌∙◌, true, false, List, [], ◌∷◌, ◌++◌, none, map-append, All,
  All-append, if◌then◌else◌, arith, Bool-cases, inl, inr, append_assoc,
}
use execkit.Text.Chars.{Text, codes, starts_with, eq_text, eq_text_iff}
use execkit.Text.Split.{lines, strip_cr}
use execkit.Text.Utf8.{as_bytes}
use execkit.Text.Utf8.RoundTrip.{from_utf8_lossy-as_bytes, as_bytes-append}
use execkit.Error.{ok}
use execkit.Transport.KnownHosts.{
  Stored, content, Disk, Scan, known, unseen, two_words, on_words, scan, known_hosts_key,
  verify_known_hosts, read, bytes_of, pin_line, pin, on_scan, on_read,
}
use execkit.Transport.KnownHosts.Lines.{
  ended, IsOneLine, IsWord, lines-ended, ended-append, ended-IsScalar, strip_cr_none, blanks,
  line_of, line-lacks, line-IsOneLine, words-line,
}
use execkit.Transport.KnownHosts.Scans.{scan-known, scan-pinned, scan-other}

-- The file is missing, or holds lines that are all ended.
abbrev pub IsManaged : List Text → Stored → Type 0
IsManaged ws s = (read s ≡ ok (ended ws)) × (bytes_of s ≡ as_bytes (ended ws)) × All IsOneLine ws

verify-scan :
    (path host : Text) (port : ℕ) (fp t : Text) (d : Disk)
    → read d.stored ≡ ok t
    → verify_known_hosts path host port fp d
      ≡ on_scan path
          (known_hosts_key host port)
          fp
          d
          (scan (known_hosts_key host port) fp (lines t) false)
unfolding verify_known_hosts
verify-scan path host port fp t d r = rw r refl

Scan-cases :
    (s : Scan) → (s ≡ known true) ⊎ (s ≡ known false) ⊎ (s ≡ unseen true) ⊎ (s ≡ unseen false)
Scan-cases (known true) = inl refl
Scan-cases (known false) = inr (inl refl)
Scan-cases (unseen true) = inr (inr (inl refl))
Scan-cases (unseen false) = inr (inr (inr refl))

-- A first use that is accepted met no error, and leaves the line.
pin-accepted :
    (path key fp : Text) (d : Disk)
    → (pin path key fp d).1 ≡ ok true
    → (d.write_error ≡ none)
      × (d.mode_error ≡ none)
      × ((pin path key fp d).0.stored ≡ content (bytes_of d.stored ++ as_bytes (pin_line key fp)))
      × ((pin path key fp d).0.write_error ≡ d.write_error)
      × ((pin path key fp d).0.mode_error ≡ d.mode_error)
unfolding pin execkit.Transport.KnownHosts.prepare_dir
pin-accepted path key fp d a = ground arith

pin_answer :
    (path key fp : Text) (d : Disk)
    → d.write_error ≡ none
    → d.mode_error ≡ none
    → (pin path key fp d).1 ≡ ok true
unfolding pin
pin_answer path key fp d w m = rw (w, m) refl

-- Where nothing fails, the answer is the scan's.
answer-scan :
    (path key fp : Text) (d e : Disk) (s : Scan)
    → d.write_error ≡ none
    → d.mode_error ≡ none
    → e.write_error ≡ none
    → e.mode_error ≡ none
    → (on_scan path key fp d s).1 ≡ (on_scan path key fp e s).1
answer-scan path key fp d e (known b) w m w' m' = refl
answer-scan path key fp d e (unseen true) w m w' m' = refl
answer-scan path key fp d e (unseen false) w m w' m' =
    pin_answer path key fp d w m ∙ sym (pin_answer path key fp e w' m')

pinned-read :
    (ws : List Text) (s : Stored) (key fp : Text) (k : IsWord key) (f : IsWord fp)
    → IsManaged ws s
    → read (content (bytes_of s ++ as_bytes (pin_line key fp)))
      ≡ ok (ended (ws ++ line_of key fp k f ∷ []))
pinned-read ws s key fp k f m =
    let line = line_of key fp k f in
    let all_lines = All-append IsOneLine ws (line ∷ []) m.2 (line-IsOneLine key fp k f, tt) in
    let text : ended (ws ++ line ∷ []) ≡ ended ws ++ pin_line key fp =
      ended-append ws line ∙ ap (◌++◌ (ended ws)) (append_assoc key (b' ' ∷ fp) (codes "\n")) in
    let bytes : bytes_of s ++ as_bytes (pin_line key fp) ≡ as_bytes (ended (ws ++ line ∷ [])) =
      rw (m.1, text) (sym (as_bytes-append (ended ws) (pin_line key fp))) in
    rw
      (
        bytes,
        from_utf8_lossy-as_bytes (ended (ws ++ line ∷ []))
            (ended-IsScalar (ws ++ line ∷ []) all_lines),
      )
      refl

pinned-lines :
    (ws : List Text) (key fp : Text) (k : IsWord key) (f : IsWord fp)
    → All IsOneLine ws
    → lines (ended (ws ++ line_of key fp k f ∷ [])) ≡ lines (ended ws) ++ line_of key fp k f ∷ []
pinned-lines ws key fp k f h =
    let line = line_of key fp k f in
    let all_lines = All-append IsOneLine ws (line ∷ []) h (line-IsOneLine key fp k f, tt) in
    rw
      (
        lines-ended (ws ++ line ∷ []) all_lines,
        lines-ended ws h,
        map-append strip_cr ws (line ∷ []),
        strip_cr_none line (line-lacks key fp k f b'\r' blanks.1 refl),
      )
      refl

module _ (path key fp : Text) (ws : List Text) (d : Disk) (m : IsManaged ws d.stored)
    (k : IsWord key) (f : IsWord fp) (is_ours : starts_with (codes "SHA256:") fp ≡ true) where
  abbrev after : Disk
  after = (pin path key fp d).0

  -- The check after a first use.
  after-pin :
      (host : Text) (port : ℕ) (fp' : Text)
      → (pin path key fp d).1 ≡ ok true
      → scan key fp (lines (ended ws)) false ≡ unseen false
      → (verify_known_hosts path host port fp' after).1 ≡ (
          if eq_text key (known_hosts_key host port)
          then ok (eq_text fp fp')
          else (verify_known_hosts path host port fp' d).1)
  after-pin host port fp' a u =
      let p = pin-accepted path key fp d a in
      let line = line_of key fp k f in
      let key' = known_hosts_key host port in
      let ls = lines (ended ws) in
      let r : read after.stored ≡ ok (ended (ws ++ line ∷ [])) =
        rw p.2 (pinned-read ws d.stored key fp k f m) in
      let now =
        verify-scan path host port fp' (ended (ws ++ line ∷ [])) after r
        ∙ ap (λ t. on_scan path key' fp' after (scan key' fp' t false))
            (pinned-lines ws key fp k f m.2) in
      rw now (elim (Bool-cases (eq_text key key')) [
        | inl e ↦
            let same : key' ≡ key = sym ((eq_text_iff key key').0 e) in
            rw (e, same, scan-pinned line key fp (words-line key fp k f) is_ours fp' ls false u)
              refl
        | inr n ↦
            rw
              (
                n,
                verify-scan path host port fp' (ended ws) d m.0,
                scan-other line key fp (words-line key fp k f) is_ours key' fp' ls false n,
              )
              (answer-scan path key' fp' after d (scan key' fp' ls false) (p.3 ∙ p.0) (p.4 ∙ p.1)
                p.0 p.1)
      ])

  after-known :
      (host : Text) (port : ℕ) (fp' : Text)
      → scan key fp (lines (ended ws)) false ≡ known true
      → (verify_known_hosts path host port fp' d).1 ≡ (
          if eq_text key (known_hosts_key host port)
          then ok (eq_text fp fp')
          else (verify_known_hosts path host port fp' d).1)
  after-known host port fp' u =
      let key' = known_hosts_key host port in
      elim (Bool-cases (eq_text key key')) [
        | inr n ↦ rw n refl
        | inl e ↦
            let same : key' ≡ key = sym ((eq_text_iff key key').0 e) in
            rw
              (
                e,
                verify-scan path host port fp' (ended ws) d m.0,
                same,
                scan-known key fp fp' (lines (ended ws)) false u,
              )
              refl
      ]

module _ (path host : Text) (port : ℕ) (fp : Text) (ws : List Text) (d : Disk)
    (m : IsManaged ws d.stored) (k : IsWord (known_hosts_key host port)) (f : IsWord fp)
    (is_ours : starts_with (codes "SHA256:") fp ≡ true)
    (accepted : (verify_known_hosts path host port fp d).1 ≡ ok true) where
  -- In a file whose lines are all ended: once a key is accepted for a host and port, by its pin or by
  -- first use, later checks there accept this key and reject every other, and the answers for all other
  -- hosts and ports stay what they were.
  pub verify-pins :
      (host' : Text) (port' : ℕ) (fp' : Text)
      → (verify_known_hosts path host' port' fp' (verify_known_hosts path host port fp d).0).1 ≡ (
          if eq_text (known_hosts_key host port) (known_hosts_key host' port')
          then ok (eq_text fp fp')
          else (verify_known_hosts path host' port' fp' d).1)
  verify-pins host' port' fp' =
      let key = known_hosts_key host port in
      let v = verify-scan path host port fp (ended ws) d m.0 in
      elim (Scan-cases (scan key fp (lines (ended ws)) false)) [
        | inl u ↦ rw (v, u) (after-known path key fp ws d m k f is_ours host' port' fp' u)
        | inr (inl u) ↦ absurd (let a = rw (v, u) at accepted in cc)
        | inr (inr (inl u)) ↦ absurd (let a = rw (v, u) at accepted in cc)
        | inr (inr (inr u)) ↦
            rw (v, u)
              (after-pin path key fp ws d m k f is_ours host' port' fp' (rw (v, u) at accepted) u)
      ]
