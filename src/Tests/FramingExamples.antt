-- ===== src/Tests/FramingExamples.antt =====
-- The theorems on framing and text at concrete inputs.
use execkit.Base.{
  ℕ, ◌+◌, ◌<◌, ◌≤◌, ◌≡◌, ◌↔◌, refl, true, false, List, [], ◌∷◌, ◌++◌, none, some, arith, length,
  take, drop, flatten, All, within,
}
use execkit.Text.Chars.{Text, Bytes, codes}
use execkit.Text.Decimal.{decimal, pos}
use execkit.Text.Utf8.{as_bytes, from_utf8_lossy}
use execkit.Output.{clean, bound}
use execkit.Output.Clean.{IsClean, clean-IsClean}
use execkit.Output.Bound.{bound_lem, KeepsEnds}
use execkit.Framing.Search.{find, rfind}
use execkit.Framing.Search.Windows.{not-At_short}
use execkit.Framing.Base64.RoundTrip.{decode64}
use execkit.Framing.Markers.{Markers, new_markers, us}
use execkit.Framing.Payload.{
  command_chunks, payload_lines, payload_lines-short, decode64-command_chunks,
}
use execkit.Framing.Parse.{parse, Parsed}
use execkit.Framing.Parse.Trailer.{parse-printed, IsHonest}
use execkit.Framing.Parse.Trailer.Token.{printed}
use execkit.Framing.Parse.Spec.{parse-append}
use execkit.Framing.Accumulator.{Accumulator, new, feed, compact}
use execkit.Framing.Accumulator.Compact.{compact_range}
use execkit.Framing.Accumulator.Incremental.{feed-eq-parse}
use execkit.Framing.Accumulator.Range.{Keeps, compact_range-Keeps}
use execkit.Framing.Accumulator.Zones.{compact-header, header_length, moved}

abbrev token : Text
token = codes "0123456789abcdef0123456789abcdef"

abbrev honest : IsHonest token (codes "out") (codes "/tmp") (codes "err")
honest = record {
  out_clear = λ j. not-At_short token (codes "out") j (omega arith);
  cwd_clear = λ j. not-At_short token (codes "/tmp") j (omega arith);
  err_clear = λ j. not-At_short token (codes "err") j (omega arith);
  cwd_free = refl;
}

parse-printed_example :
    parse
      ((codes "out" ++ printed (new_markers token) (decimal 7) (codes "/tmp") (codes "err"))
        ++ ((new_markers token).end ++ codes "\n"))
      (new_markers token)
    ≡ some (record {
      stdout = clean (from_utf8_lossy (codes "out"));
      stderr = clean (from_utf8_lossy (codes "err"));
      exit_code = pos 7;
      cwd = clean (from_utf8_lossy (codes "/tmp"));
    })
parse-printed_example =
    parse-printed token (codes "out") (codes "/tmp") (codes "err") (codes "\n") 7 (refl, refl)
      honest (omega arith)

abbrev m : Markers
m = record { start = codes "<S>"; end = codes "<E>" }

abbrev pieces : List Bytes
pieces =
    codes "hello\n<S"
    ∷ (codes ">" ++ us ∷ codes "0")
    ∷ (us ∷ codes "/" ++ us ∷ codes "e<")
    ∷ codes "E>\n"
    ∷ []

feed-eq-parse_example : (feed m (new 100) pieces).0 ≡ parse (flatten pieces) m
feed-eq-parse_example = feed-eq-parse m 100 pieces (omega arith, omega arith) (omega arith)

parse-append_example :
    parse (flatten pieces ++ codes "more <E>") m
    ≡ some
        (record { stdout = codes "hello"; stderr = codes "e"; exit_code = pos 0; cwd = codes "/" })
unfolding parse execkit.Framing.Parse.find_block execkit.Framing.Search.find
    execkit.Framing.Parse.block_at execkit.Framing.Search.rfind execkit.Framing.Parse.separators
    execkit.Framing.Parse.parsed_of
parse-append_example =
    parse-append (flatten pieces) (codes "more <E>") m
      (record { stdout = codes "hello"; stderr = codes "e"; exit_code = pos 0; cwd = codes "/" })
      (omega arith, omega arith) refl

abbrev zone_buf : Bytes
zone_buf = codes "0123456789 0123456789 0123456789 0123456789 0123456789<S>"

compact_range-Keeps_example : Keeps zone_buf 0 54 5 0 (compact_range zone_buf 0 54 5 0)
compact_range-Keeps_example = compact_range-Keeps zone_buf 0 54 5 0 (omega arith) (omega arith)

-- The start marker stands at position 54, and its header has not arrived.
abbrev placed_acc : Accumulator
placed_acc = record {
  buf = zone_buf;
  cap = 10;
  scanned = 0;
  elided = 0;
  start = some 54;
  stderr_at = none;
  err_elided = 0;
  err_keep = none;
}

compact-header_example :
    (t : ℕ) × ((compact placed_acc).start ≡ some t)
    × (take (header_length placed_acc 54) (drop t (compact placed_acc).buf)
        ≡ take (header_length placed_acc 54) (drop 54 placed_acc.buf))
    × ((compact placed_acc).stderr_at ≡ moved placed_acc.stderr_at 54 t)
compact-header_example =
    compact-header placed_acc 54
      (record { started = refl; in_buffer = omega arith; header = λ e h. absurd cc })

payload_lines-short_example : All (λ l. length l < 1024) (payload_lines (codes "ls -l") token)
payload_lines-short_example = payload_lines-short (codes "ls -l") token refl

abbrev ls_scalar : All (λ c. (c < 0x110000) × (within 0xD800 0xDFFF c ≡ false)) (codes "ls")
ls_scalar = ((omega arith, refl), ((omega arith, refl), tt))

decode64-command_chunks_example :
    decode64 (flatten (command_chunks (codes "ls"))) ≡ as_bytes (codes "ls")
decode64-command_chunks_example = decode64-command_chunks (codes "ls") ls_scalar

-- An escape sequence, a unit separator and a line end, around a word.
abbrev coloured : Text
coloured = 0x1b ∷ (codes "[31mred" ++ (0x1f ∷ codes "\n"))

clean-IsClean_example : IsClean (clean coloured) × ((clean coloured ≡ coloured) ↔ IsClean coloured)
clean-IsClean_example = clean-IsClean coloured (ground arith)

bound_lem_example :
    ((bound (codes "hello") 4).1 ≡ true)
    × KeepsEnds (codes "hello") 2 (bound (codes "hello") 4).0
    × (length (bound (codes "hello") 4).0 ≤ 4 + 43)
bound_lem_example = bound_lem (codes "hello") 4 (omega arith)
