-- ===== src/Framing/Parse/Trailer/ExitCode.antt =====
-- The exit codes that a shell prints, read back.
use execkit.Base.{
  every, every-lt, ℕ, ◌≤◌, ◌<◌, ◌≡◌, refl, Bool, true, false, not, arith, ◌==◌, length, all, ◌&&◌,
  leb, &&-true, leb→le,
}
use execkit.Text.Decimal.{ℤ, pos, negsuc, decimal}
use execkit.Framing.Markers.{us}
use execkit.Framing.Parse.{exit_code_of}

abbrev is_pos : ℕ → ℤ → Bool
is_pos n (pos k) = k == n
is_pos n (negsuc k) = false

-- The exit code as `%d` prints it: read back, short, and without a separator.
abbrev reads_back : ℕ → Bool
reads_back n =
    is_pos n (exit_code_of (decimal n))
    && (leb (length (decimal n)) 3 && all (λ d. not (d == us)) (decimal n))

exit_table : every reads_back 256 ≡ true
unfolding every exit_code_of decimal
exit_table = refl

of_is_pos : (n : ℕ) (z : ℤ) → is_pos n z ≡ true → z ≡ pos n
of_is_pos n (pos k) h = ground arith
of_is_pos n (negsuc k) h = cc

pub exit_code-decimal :
    (n : ℕ)
    → n < 256
    → (exit_code_of (decimal n) ≡ pos n)
      × (length (decimal n) ≤ 3)
      × (all (λ d. not (d == us)) (decimal n) ≡ true)
exit_code-decimal n h =
    let t = &&-true _ _ (every-lt reads_back 256 n h exit_table) in
    let u = &&-true _ _ t.1 in (of_is_pos n _ t.0, leb→le _ _ u.0, u.1)
