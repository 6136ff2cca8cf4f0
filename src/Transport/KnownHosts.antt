-- ===== src/Transport/KnownHosts.antt =====
-- The host-key check of crates/execkit/src/transport/ssh.rs. `Disk` is the known_hosts file, its
-- directory, and what the file system answers.
pub mod Lines
pub mod Scans
pub mod Pins
use execkit.Base.{
  ℕ, Bool, true, false, not, List, [], ◌∷◌, ◌++◌, Option, none, some, ◌==◌, filter, is_empty,
  if◌then◌else◌,
}
use execkit.Text.Chars.{Text, Bytes, codes, starts_with, begins_with, eq_text}
use execkit.Text.Split.{lines, split, split_whitespace}
use execkit.Text.Utf8.{as_bytes, from_utf8_lossy}
use execkit.Text.Decimal.{decimal}
use execkit.Error.{Error, Result, ok, err}
use execkit.Transport.{HostKeyVerification}

pub data Stored : Type 0 where
  absent : Stored
  unreadable : Text → Stored
  content : Bytes → Stored

-- The errors are those of the calls before the line is written, and of the one behind it.
pub record Disk : Type 0 where
  pub stored : Stored
  pub file_private : Bool
  pub dir_exists : Bool
  pub dir_private : Bool
  pub write_error : Option Text
  pub mode_error : Option Text

unfoldable pub known_hosts_key : Text → ℕ → Text
unfolding decimal
known_hosts_key host port =
    if port == 22 then host else b'[' ∷ (host ++ (b']' ∷ b':' ∷ decimal port))

abbrev pub parts_of : Text → List Text
parts_of path = filter (λ w. not (is_empty w)) (split (λ c. c == b'/') path)

-- `path.parent()` is no empty path.
abbrev has_parent : Text → List Text → Bool
has_parent path [] = false
has_parent path (w ∷ []) = begins_with b'/' path
has_parent path (w ∷ v ∷ ws) = true

-- `is_default_known_hosts_dir` of the parent.
unfoldable pub is_default_known_hosts_dir : List Text → Bool
is_default_known_hosts_dir [] = false
is_default_known_hosts_dir (w ∷ []) = false
is_default_known_hosts_dir (dir ∷ name ∷ []) = eq_text dir (codes ".execkit")
is_default_known_hosts_dir (w ∷ dir ∷ name ∷ ws) = is_default_known_hosts_dir (dir ∷ name ∷ ws)

-- A missing directory is made, for the owner alone; one that is there is changed only if it is the
-- default one.
unfoldable pub prepare_dir : Text → Disk → Disk
unfolding is_default_known_hosts_dir split eq_text
prepare_dir path d =
    if has_parent path (parts_of path)
    then (if not d.dir_exists
        then record d { dir_exists = true; dir_private = true }
        else if is_default_known_hosts_dir (parts_of path)
        then record d { dir_private = true }
        else d)
    else d

-- The first two words of a line.
abbrev pub two_words : List Text → Option (Text × Text)
two_words [] = none
two_words (h ∷ []) = none
two_words (h ∷ fp ∷ rest) = some (h, fp)

-- What the file says of a key: the answer, or that it is not there and whether a line is foreign.
pub data Scan : Type 0 where
  known : Bool → Scan
  unseen : Bool → Scan

abbrev pub on_words : Text → Text → Option (Text × Text) → (Bool → Scan) → Bool → Scan
on_words key fingerprint none rest foreign = rest foreign
on_words key fingerprint (some (h, fp)) rest foreign =
    if not (starts_with (codes "SHA256:") fp)
    then rest true
    else if eq_text h key
    then known (eq_text fp fingerprint)
    else rest foreign

unfoldable pub scan : Text → Text → List Text → Bool → Scan
unfolding split_whitespace
scan key fingerprint [] foreign = unseen foreign
scan key fingerprint (line ∷ ls) foreign =
    on_words key fingerprint (two_words (split_whitespace line)) (scan key fingerprint ls) foreign

abbrev pub read : Stored → Result Text
read absent = ok []
read (unreadable e) = err (Error.io e)
read (content bytes) = ok (from_utf8_lossy bytes)

abbrev pub bytes_of : Stored → Bytes
bytes_of absent = []
bytes_of (unreadable e) = []
bytes_of (content bytes) = bytes

abbrev pub pin_line : Text → Text → Text
pin_line key fingerprint = key ++ b' ' ∷ (fingerprint ++ codes "\n")

-- The first use: the line is appended.
unfoldable pub pin : Text → Text → Text → Disk → Disk × Result Bool
pin path key fingerprint d =
    let d' = prepare_dir path d in
    let written = record d' {
      stored = content (bytes_of d.stored ++ as_bytes (pin_line key fingerprint));
    } in
    elim d.write_error [
      | some e ↦ (d', err (Error.io e))
      | none ↦ elim d.mode_error [
        | some e ↦ (written, err (Error.io e))
        | none ↦ (record written { file_private = true }, ok true)
      ]
    ]

abbrev foreign_error : Text → Error
foreign_error path = Error.transport (
    codes "known_hosts file "
    ++ (path
        ++ (codes " is in OpenSSH format; point EXECKIT_MCP_KNOWN_HOSTS at an execkit-managed file "
            ++ codes "(default ~/.execkit/known_hosts) or pin 'fingerprint'")))

abbrev pub on_scan : Text → Text → Text → Disk → Scan → Disk × Result Bool
on_scan path key fingerprint d (known b) = (d, ok b)
on_scan path key fingerprint d (unseen true) = (d, err (foreign_error path))
on_scan path key fingerprint d (unseen false) = pin path key fingerprint d

abbrev pub on_read : Text → Text → Text → Disk → Result Text → Disk × Result Bool
on_read path key fingerprint d (err e) = (d, err e)
on_read path key fingerprint d (ok text) =
    on_scan path key fingerprint d (scan key fingerprint (lines text) false)

unfoldable pub verify_known_hosts : Text → Text → ℕ → Text → Disk → Disk × Result Bool
unfolding known_hosts_key
verify_known_hosts path host port fingerprint d =
    on_read path (known_hosts_key host port) fingerprint d (read d.stored)

unfoldable pub verify_fingerprint :
    HostKeyVerification → Text → ℕ → Text → Disk → Disk × Result Bool
unfolding verify_known_hosts
verify_fingerprint HostKeyVerification.accept_any host port fingerprint d = (d, ok true)
verify_fingerprint (HostKeyVerification.pinned expected) host port fingerprint d =
    (d, ok (eq_text expected fingerprint))
verify_fingerprint (HostKeyVerification.known_hosts path) host port fingerprint d =
    verify_known_hosts path host port fingerprint d

-- `check_server_key`: an error rejects the key, and is kept.
unfoldable pub check_server_key :
    HostKeyVerification → Text → ℕ → Text → Disk × Option Error → (Disk × Option Error) × Bool
unfolding verify_fingerprint
check_server_key policy host port fingerprint (d, kept) =
    let v = verify_fingerprint policy host port fingerprint d in
    elim v.1 [ ok accept ↦ ((v.0, kept), accept) | err e ↦ ((v.0, some e), false) ]
