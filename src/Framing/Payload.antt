-- ===== src/Framing/Payload.antt =====
-- `build_payload` of crates/execkit/src/framing.rs: the lines that are written to the shell.
use execkit.Base.{
  ℕ, zero, suc, ◌≤◌, ◌<◌, ◌≡◌, refl, List, [], ◌∷◌, ◌++◌, map, arith, length, take, drop, flatten,
  All, All-append, length-append, length-take, length-drop, take-append-drop,
}
use execkit.Text.Chars.{Text, codes}
use execkit.Text.Utf8.{as_bytes}
use execkit.Text.Utf8.RoundTrip.{IsScalar, as_bytes-bytes}
use execkit.Framing.Base64.{b64}
use execkit.Framing.Base64.RoundTrip.{decode64, decode64-b64}
use execkit.Framing.Markers.{new_markers}

-- Base64 characters on one assignment line.
abbrev pub chunk_size : ℕ
chunk_size = 760

-- `chunks(n)`: pieces of `n`, the last one shorter. No text has more pieces than characters.
unfoldable pub chunks : ℕ → ℕ → Text → List Text
chunks zero n xs = []
chunks (suc fuel) n [] = []
chunks (suc fuel) n (x ∷ xs) = take n (x ∷ xs) ∷ chunks fuel n (drop n (x ∷ xs))

abbrev first_line : Text
first_line = codes "{ __ek_c=''; } 2>/dev/null"

unfoldable pub assign_line : Text → Text
assign_line chunk = codes "{ __ek_c=\"${__ek_c}" ++ (chunk ++ codes "\"; } 2>/dev/null")

-- The text of the run line around the token's first eight digits and the two markers.
abbrev run_file : Text
run_file = codes "{ __ek_f=$(mktemp 2>/dev/null || printf '%s' \"${TMPDIR:-/tmp}/execkitE_$$_"

abbrev run_decode : Text
run_decode =
    codes "\"); command : >|\"$__ek_f\"; chmod 600 \"$__ek_f\"; } 2>/dev/null; "
    ++ (codes "{ __ek_s=$(printf '%s' \"$__ek_c\" | \"$__ek_dp\" \"$__ek_df\") || "
        ++ (codes "__ek_s=\"printf 'execkit: could not decode command (was IFS/PATH changed?)"
            ++ codes "\\\\n' >&2; (exit 125)\"; } 2>/dev/null; "))

abbrev run_eval : Text
run_eval =
    codes "{ command eval \"$__ek_s\"; } </dev/null 2>|\"$__ek_f\"; "
    ++ codes "{ __ek_rc=$?; printf '\\n%s\\037%d\\037%s\\037' '"

abbrev run_trailer : Text
run_trailer =
    codes "' \"$__ek_rc\" \"$(printf %s \"$PWD\" | tr -d '\\037')\"; cat \"$__ek_f\"; "
    ++ codes "rm -f \"$__ek_f\"; unset __ek_c __ek_f __ek_s; printf '%s\\n' '"

unfoldable pub run_line : Text → Text
unfolding new_markers
run_line token =
    run_file
    ++ (take 8 token
        ++ (run_decode
            ++ (run_eval
                ++ ((new_markers token).start
                    ++ (run_trailer ++ ((new_markers token).end ++ codes "'; } 2>/dev/null"))))))

unfoldable pub command_chunks : Text → List Text
unfolding chunks b64 as_bytes
command_chunks command = let enc = b64 (as_bytes command) in chunks (length enc) chunk_size enc

unfoldable pub payload_lines : Text → Text → List Text
payload_lines command token =
    first_line ∷ (map assign_line (command_chunks command) ++ run_line token ∷ [])

-- Every line ends in `\n`.
unfoldable pub build_payload : Text → Text → Text
unfolding payload_lines
build_payload command token = flatten (map (λ l. l ++ b'\n' ∷ []) (payload_lines command token))

flatten-chunks :
    (fuel n : ℕ) (xs : Text) → length xs ≤ fuel → 0 < n → flatten (chunks fuel n xs) ≡ xs
unfolding chunks
flatten-chunks zero n [] h p = refl
flatten-chunks zero n (x ∷ xs) h p = absurd (omega arith)
flatten-chunks (suc fuel) n [] h p = refl
flatten-chunks (suc fuel) n (x ∷ xs) h p =
    let rest = flatten-chunks fuel n (drop n (x ∷ xs)) (omega (arith, length-drop n (x ∷ xs))) p in
    rw rest (take-append-drop n (x ∷ xs))

chunks-short : (fuel n : ℕ) (xs : Text) → All (λ c. length c ≤ n) (chunks fuel n xs)
unfolding chunks
chunks-short zero n xs = tt
chunks-short (suc fuel) n [] = tt
chunks-short (suc fuel) n (x ∷ xs) =
    (omega (arith, length-take n (x ∷ xs)), chunks-short fuel n (drop n (x ∷ xs)))

assign_lines-short :
    (cs : List Text)
    → All (λ c. length c ≤ 760) cs
    → All (λ l. length l < 1024) (map assign_line cs)
unfolding assign_line
assign_lines-short [] h = tt
assign_lines-short (c ∷ cs) h =
    (omega (arith, h.0, length-append c (codes "\"; } 2>/dev/null")), assign_lines-short cs h.1)

run_line-short : (token : Text) → length token ≡ 32 → length (run_line token) < 1024
unfolding run_line
run_line-short token h = omega (
  arith,
  length-append (take 8 token) (run_decode ++ (run_eval ++ behind_file)),
  length-take 8 token,
  length-append marked (run_trailer ++ behind_start),
  length-append token (codes "__"),
  length-append marked (codes "'; } 2>/dev/null"),
)
  where
    marked : Text
    marked = token ++ codes "__"

    behind_start : Text
    behind_start = (new_markers token).end ++ codes "'; } 2>/dev/null"

    behind_file : Text
    behind_file = (new_markers token).start ++ (run_trailer ++ behind_start)

-- The canonical-mode limit of a PTY line. Whatever the command is, with a token of 32 characters
-- every line that is written to the shell is shorter than 1024 characters.
pub payload_lines-short :
    (command token : Text)
    → length token ≡ 32
    → All (λ l. length l < 1024) (payload_lines command token)
unfolding payload_lines command_chunks
payload_lines-short command token h = (
  omega arith,
  All-append _ (map assign_line (command_chunks command)) (run_line token ∷ [])
      (assign_lines-short (command_chunks command)
        (chunks-short (length (b64 (as_bytes command))) chunk_size (b64 (as_bytes command))))
      (run_line-short token h, tt),
)

-- The pieces on the assignment lines, put together again, are the command in base64.
pub flatten-command_chunks :
    (command : Text) → flatten (command_chunks command) ≡ b64 (as_bytes command)
unfolding command_chunks
flatten-command_chunks command =
    flatten-chunks (length (b64 (as_bytes command))) chunk_size (b64 (as_bytes command))
      (omega arith) (omega arith)

-- The shell decodes what was sent: `base64 -d` on the pieces of the assignment lines, put together,
-- gives the bytes of the command, for every command.
pub decode64-command_chunks :
    (command : Text)
    → All IsScalar command
    → decode64 (flatten (command_chunks command)) ≡ as_bytes command
decode64-command_chunks command h =
    rw (flatten-command_chunks command) (decode64-b64 (as_bytes command) (as_bytes-bytes command h))
