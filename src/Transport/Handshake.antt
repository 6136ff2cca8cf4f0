-- ===== src/Transport/Handshake.antt =====
-- `shell_init` and `contains` of crates/execkit/src/transport/mod.rs. What each round of the
-- loop gets from the channel and from the clock is a list of `Wait`s.
pub mod Ready
use execkit.Base.{
  ℕ, zero, suc, ◌*◌, ◌^◌, Bool, true, false, not, ◌&&◌, ◌||◌, List, [], ◌∷◌, ◌++◌, Option, none,
  some, length, leb, is_empty, if◌then◌else◌,
}
use execkit.Text.Chars.{Text, Bytes, codes, contains_text}
use execkit.Error.{Error, Result, ok, err}
use execkit.Session.Channel.{WriteError, write_failed}

unfoldable pub contains : Bytes → Bytes → Bool
unfolding contains_text
contains hay needle =
    not (is_empty needle) && leb (length needle) (length hay) && contains_text needle hay

abbrev pub ready : Bytes
ready = codes "EXECKITrdy9f3a7cok"

-- What is written first.
abbrev pub init_line : Text
init_line =
    codes "stty -echo 2>/dev/null; PS1=''; PS2=''; PROMPT_COMMAND=''; "
    ++ (codes "command set +o history 2>/dev/null; command set +H 2>/dev/null; "
        ++ (codes "command set +m 2>/dev/null; unset HISTFILE; "
            ++ (codes "command export PAGER=cat GIT_PAGER=cat MANPAGER=cat SYSTEMD_PAGER=cat "
                ++ (codes "LESS=FRX 2>/dev/null; "
                    ++ (codes "__ek_dp=$(command -v base64 2>/dev/null); "
                        ++ (codes "if printf 'YQ==' | \"$__ek_dp\" -d >/dev/null 2>&1; "
                            ++ (codes "then __ek_df=-d; "
                                ++ (codes "elif printf 'YQ==' | \"$__ek_dp\" -D >/dev/null 2>&1; "
                                    ++ (codes "then __ek_df=-D; else __ek_dp=''; fi; "
                                        ++ (codes "printf '%s\\n' EXECKITrdy''9f3a7c"
                                            ++ codes "\"${__ek_dp:+ok}\"''\n"))))))))))

abbrev pub is_refused : Bytes → Bool
is_refused acc =
    contains acc (codes "EXECKITrdy9f3a7c\n") || contains acc (codes "EXECKITrdy9f3a7c\r")

abbrev pub timed_out : Error
timed_out = Error.transport (codes "shell init timed out")

abbrev pub disconnected : Error
disconnected = Error.transport (codes "shell init: disconnected")

abbrev pub no_decoder : Error
no_decoder =
    Error.transport (codes "execkit needs 'base64' on the target shell (coreutils or busybox)")

-- What `recv_timeout` gives in a round: a chunk, with the time that is left at the next round, or
-- nothing, because the channel is closed or the deadline passes during the wait.
pub data Wait : Type 0 where
  gives : Bytes → ℕ → Wait
  nothing : Wait

-- Eight seconds, in nanoseconds.
abbrev pub init_timeout : ℕ
init_timeout = 8 * 10 ^ 9

-- `remaining.is_zero()`.
abbrev pub is_over : ℕ → Bool
is_over zero = true
is_over (suc n) = false

-- `remaining` is the time that is left; behind the end of the list nothing comes any more.
unfoldable pub init_loop : Bytes → ℕ → List Wait → Result (Unit {0})
unfolding contains
init_loop acc remaining [] = if is_over remaining then err timed_out else err disconnected
init_loop acc remaining (nothing ∷ waits) =
    if is_over remaining then err timed_out else err disconnected
init_loop acc remaining (gives c left ∷ waits) =
    let rest = init_loop (acc ++ c) left waits in
    if is_over remaining
    then err timed_out
    else if contains (acc ++ c) ready
    then ok tt
    else if is_refused (acc ++ c)
    then err no_decoder
    else rest

-- What was written, and the result. The first round begins at once.
unfoldable pub shell_init : Option WriteError → List Wait → List Text × Result (Unit {0})
unfolding init_loop
shell_init (some e) waits = ([], err (write_failed e))
shell_init none waits = (init_line ∷ [], init_loop [] init_timeout waits)
