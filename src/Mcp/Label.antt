-- ===== src/Mcp/Label.antt =====
-- The names of sessions, of crates/execkit-mcp/src/main.rs: `sanitize`, the labels, the session id and
-- the file of its audit log.
pub mod Ids
pub mod Safe
use execkit.Base.{
  ℕ, Bool, not, ◌||◌, [], ◌∷◌, ◌++◌, Option, none, some, ◌==◌, map, take, is_empty, if◌then◌else◌,
}
use execkit.Text.Chars.{Text, codes, eq_text, is_ascii_alphanumeric}
use execkit.Text.Decimal.{decimal}
use execkit.Mcp.Params.{CreateParams, unwrap_or}

abbrev pub is_plain : ℕ → Bool
is_plain c = is_ascii_alphanumeric c || c == b'.' || c == b'_' || c == b'-'

abbrev pub plain_or_underscore : ℕ → ℕ
plain_or_underscore c = if is_plain c then c else b'_'

abbrev some_text : Text → Text
some_text [] = codes "_"
some_text (c ∷ cs) = c ∷ cs

unfoldable pub sanitize : Text → Text
sanitize s = some_text (take 40 (map plain_or_underscore s))

abbrev with_port : Text → Option ℕ → Text
with_port name none = name
with_port name (some p) = if p == 22 then name else name ++ b':' ∷ decimal p

unfoldable pub label_for : Text → Option Text → Option Text → Option ℕ → Option Text → Text
unfolding sanitize eq_text
label_for transport user host port container =
    if eq_text transport (codes "ssh")
    then with_port
        (codes "ssh_"
          ++ (sanitize (unwrap_or (codes "user") user)
              ++ b'@' ∷ sanitize (unwrap_or (codes "host") host)))
        port
    else if eq_text transport (codes "docker")
    then codes "docker_" ++ sanitize (unwrap_or (codes "container") container)
    else codes "local"

unfoldable pub session_label : CreateParams → Text
unfolding label_for
session_label p = label_for p.transport p.user p.host p.port p.container

unfoldable pub ssh_label : Text → Text → Option ℕ → Text
unfolding label_for
ssh_label host_arg user port = label_for (codes "ssh") (some user) (some host_arg) port none

abbrev behind_colon : Text → Option Text → Text
behind_colon name none = name
behind_colon name (some s) = name ++ b':' ∷ sanitize s

unfoldable pub transport_label : CreateParams → Text
unfolding sanitize eq_text
transport_label p =
    if eq_text p.transport (codes "ssh")
    then behind_colon (codes "ssh") p.host
    else if eq_text p.transport (codes "docker")
    then behind_colon (codes "docker") p.container
    else p.transport

-- `{run}-{n}_{label}`.
unfoldable pub session_id : Text → ℕ → Text → Text
unfolding decimal
session_id run n label = run ++ b'-' ∷ (decimal n ++ b'_' ∷ label)

-- `{id}-{open_ms}`, and the file of it.
unfoldable pub file_stem : Text → ℕ → Text
unfolding decimal
file_stem id open_ms = id ++ b'-' ∷ decimal open_ms

unfoldable pub audit_file : Text → ℕ → Text
unfolding file_stem
audit_file id open_ms = file_stem id open_ms ++ codes ".jsonl"
