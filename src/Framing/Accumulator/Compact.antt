-- ===== src/Framing/Accumulator/Compact.antt =====
-- `compact_range` of crates/execkit/src/framing.rs: the middle of a zone of the buffer gives way to
-- a separator that counts what was dropped.
use execkit.Base.{ℕ, ◌+◌, ◌-◌, ◌*◌, ◌++◌, ltb, leb, length, take, drop, if◌then◌else◌}
use execkit.Text.Chars.{Bytes, codes}
use execkit.Text.Decimal.{decimal}

unfoldable pub elision_marker : ℕ → Bytes
unfolding decimal
elision_marker elided = codes "\n[execkit: " ++ (decimal elided ++ codes " bytes elided]\n")

-- The length of the separator of an earlier compaction.
unfoldable pub old_sep : ℕ → ℕ
old_sep elided = if ltb 0 elided then length (elision_marker elided) else 0

-- What `compact_range` leaves: the buffer, the new end of the range, and the count.
pub record Zone : Type 0 where
  pub buf : Bytes
  pub end : ℕ
  pub elided : ℕ

unfoldable pub compact_range : Bytes → ℕ → ℕ → ℕ → ℕ → Zone
compact_range buf from to keep elided =
    if leb (to - from) (2 * keep + old_sep elided)
    then record { buf = buf; end = to; elided = elided }
    else (let head_end = from + keep in
        let tail_start = to - keep in
        let dropped = elided + (tail_start - head_end - old_sep elided) in
        let sep = elision_marker dropped in
        record {
          buf = take head_end buf ++ (sep ++ drop tail_start buf);
          end = to - (tail_start - head_end) + length sep;
          elided = dropped;
        })
