-- ===== src/Tests/TransportExamples.antt =====
-- The theorems on the host-key check and on the handshake at concrete inputs, and runs of both.
use execkit.Base.{ℕ, some, ◌++◌, ◌∷◌, [], List, true, none, ◌≡◌, refl, if◌then◌else◌}
use execkit.Text.Utf8.RoundTrip.{IsScalar-small}
use execkit.Text.Chars.{Text, Bytes, codes, eq_text}
use execkit.Error.{ok, err}
use execkit.Transport.{HostKeyVerification}
use execkit.Transport.KnownHosts.{Disk, content, known_hosts_key, verify_known_hosts}
use execkit.Transport.KnownHosts.Lines.{ended}
use execkit.Transport.KnownHosts.Pins.{verify-pins}
use execkit.Transport.Handshake.{
  shell_init, init_loop, init_line, contains, gives, nothing, disconnected,
}
use execkit.Transport.Handshake.Ready.{in_time, bytes_of, ending, verdict, shell_init-verdict}

abbrev pinned_lines : List Text
pinned_lines = codes "build SHA256:aa" ∷ codes "[build]:2222 SHA256:bb" ∷ []

abbrev disk : Disk
disk = record {
  stored = content (ended pinned_lines);
  file_private = true;
  dir_exists = true;
  dir_private = true;
  write_error = none;
  mode_error = none;
}

-- The key is pinned for the port 22 and changed on 2222.
verify-pins_example :
    (verify_known_hosts
      (codes "/k/known_hosts")
      (codes "build")
      2222
      (codes "SHA256:aa")
      (verify_known_hosts (codes "/k/known_hosts") (codes "web") 22 (codes "SHA256:cc") disk).0).1
    ≡ (if eq_text (known_hosts_key (codes "web") 22) (known_hosts_key (codes "build") 2222)
        then ok (eq_text (codes "SHA256:cc") (codes "SHA256:aa"))
        else (verify_known_hosts
            (codes "/k/known_hosts")
            (codes "build")
            2222
            (codes "SHA256:aa")
            disk).1)
unfolding execkit.Text.Utf8.from_utf8_lossy execkit.Text.Utf8.as_bytes known_hosts_key
    execkit.Text.Chars.is_whitespace execkit.Text.Chars.starts_with verify_known_hosts
    execkit.Transport.KnownHosts.scan execkit.Text.Split.lines eq_text
    execkit.Transport.KnownHosts.pin
verify-pins_example =
    verify-pins (codes "/k/known_hosts") (codes "web") 22 (codes "SHA256:cc") pinned_lines disk
      (
        refl,
        refl,
        (
          (refl, IsScalar-small (codes "build SHA256:aa") refl),
          ((refl, IsScalar-small (codes "[build]:2222 SHA256:bb") refl), tt),
        ),
      )
      (refl, refl, IsScalar-small (codes "web") refl)
      (refl, refl, IsScalar-small (codes "SHA256:cc") refl) refl refl (codes "build") 2222
      (codes "SHA256:aa")

-- The ready tag in two pieces.
abbrev printed : List (Bytes × ℕ)
printed = (codes "banner EXECKITrdy9f3", 7) ∷ (codes "a7cok\n", 5) ∷ []

shell_init-verdict_example :
    shell_init none (in_time printed ++ ending (some (codes "$ ")))
    ≡ (init_line ∷ [], verdict (bytes_of printed ++ codes "$ ") (some (codes "$ ")))
unfolding contains
shell_init-verdict_example = shell_init-verdict printed (some (codes "$ ")) refl

shell_init-printed : shell_init none (in_time printed ++ ending none) ≡ (init_line ∷ [], ok tt)
unfolding shell_init init_loop contains
shell_init-printed = refl

-- A shell that prints neither tag and stays open until the deadline passes is called disconnected.
shell_init-slow :
    shell_init none (gives (codes "$ ") 5 ∷ nothing ∷ []) ≡ (init_line ∷ [], err disconnected)
unfolding shell_init init_loop contains
shell_init-slow = refl
