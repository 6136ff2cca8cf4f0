-- ===== src/Framing/Parse/Trailer.antt =====
-- The trailer that the run line prints (`build_payload`), and what `parse` makes of it.
pub mod Token
pub mod Located
pub mod ExitCode
use native.Mathlib.Decide.{dec_lt}
use native.Mathlib.Nat.{zero-add}
use execkit.Base.{
  every, every-lt, ℕ, zero, suc, ◌+◌, ◌-◌, ◌≤◌, ◌<◌, ◌≡◌, refl, sym, ap, ◌∙◌, Bool, true, false,
  not, List, [], ◌∷◌, ◌++◌, some, arith, ◌==◌, length, take, drop, slice, all, length-append,
  length-drop, drop-append_le, drop-append_ge, drop-drop, append_assoc, take-append_self,
  drop-append_self, slice_mid, ◌&&◌, leb, &&-true, leb→le, Bool-cases, inl, inr,
}
use execkit.Text.Chars.{Text, Bytes, codes, is_ascii_hexdigit, starts_with}
use execkit.Text.Utf8.{from_utf8_lossy}
use execkit.Text.Decimal.{ℤ, pos, negsuc, decimal}
use execkit.Output.{clean}
use execkit.Framing.Search.{find, rfind}
use execkit.Framing.Search.Windows.{length-starts_with}
use execkit.Framing.Search.Segments.{
  Free, Clear, Skips, Free-append, Clear-part, Clear-short, Clear-sep, Clear-after_self, Skips-sep,
  starts_with-append, starts_with-sep, starts_with-part, find_behind, rfind_behind,
}
use execkit.Framing.Markers.{Markers, us, new_markers}
use execkit.Framing.Parse.{
  Block, separators, block_at, find_block, exit_code_of, strip_newline, parsed_of, parse,
}
use execkit.Framing.Parse.Trailer.Token.{IsToken, printed, strip_newline-concat}
use execkit.Framing.Parse.Trailer.Located.{
  Fits, parts, block_slice, found, mk, block, stream, between, before,
}
use execkit.Framing.Parse.Trailer.ExitCode.{exit_code-decimal}

-- The command's output, directory and stderr do not hold the token, and the directory holds no
-- separator (`tr -d '\037'` takes it out).
pub record IsHonest (token : Text) (out cwd err : Bytes) : Type 0 where
  pub out_clear : Clear token out
  pub cwd_clear : Clear token cwd
  pub err_clear : Clear token err
  pub cwd_free : Free us cwd

-- The trailer's round trip. Whatever bytes the command wrote to stdout and stderr and whatever
-- follows the end marker, if the token is 32 hex digits and neither the output, the directory nor
-- the stderr holds it, the directory holds no separator byte, and the exit status is below 256, then
-- `parse` finds the block that the run line printed: it returns the command's own stdout, stderr and
-- directory, each decoded and cleaned, and its exit status.
pub parse-printed :
    (token : Text) (out cwd err rest : Bytes) (n : ℕ)
    → IsToken token
    → IsHonest token out cwd err
    → n < 256
    → parse
        ((out ++ printed (new_markers token) (decimal n) cwd err)
          ++ ((new_markers token).end ++ rest))
        (new_markers token)
      ≡ some (record {
        stdout = clean (from_utf8_lossy out);
        stderr = clean (from_utf8_lossy err);
        exit_code = pos n;
        cwd = clean (from_utf8_lossy cwd);
      })
unfolding parse parsed_of
parse-printed token out cwd err rest n tok honest small =
    rw (found token tok out code cwd err rest fits, parse)
      (rw (block_slice token tok out code cwd err rest fits)
        (rw (cut.0, cut.1, cut.2, cut.3, strip_newline-concat out, printed_code.0)))
  where
    code : Bytes
    code = decimal n

    printed_code :
        (exit_code_of code ≡ pos n) × (length code ≤ 3) × (all (λ d. not (d == us)) code ≡ true)
    printed_code = exit_code-decimal n small

    fits : Fits token out code cwd err
    fits = record {
      out_clear = honest.out_clear;
      code_clear = Clear-short token code (omega (arith, printed_code.1, tok.0));
      cwd_clear = honest.cwd_clear;
      err_clear = honest.err_clear;
      code_free = printed_code.2;
      cwd_free = honest.cwd_free;
    }

    cut :
        (take
            (length (out ++ b'\n' ∷ []))
            ((out ++ printed (new_markers token) code cwd err) ++ ((new_markers token).end ++ rest))
          ≡ out ++ b'\n' ∷ [])
        × (slice 1 (1 + length code) (us ∷ (code ++ (us ∷ (cwd ++ (us ∷ err))))) ≡ code)
        × (slice
              (1 + length code + 1)
              (1 + length code + 1 + length cwd)
              (us ∷ (code ++ (us ∷ (cwd ++ (us ∷ err)))))
            ≡ cwd)
        × (drop (1 + length code + 1 + length cwd + 1) (us ∷ (code ++ (us ∷ (cwd ++ (us ∷ err)))))
            ≡ err)
    cut = parts token tok out code cwd err rest fits
