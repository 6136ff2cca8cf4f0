-- ===== src/Framing/Parse/Spec.antt =====
-- What `parse` returns, in terms of the end markers in the buffer: the block behind the first end
-- marker that validates. So more input never changes a result, and a rejected marker stays rejected.
use execkit.Base.{
  suc, ◌+◌, ◌≤◌, ◌≡◌, ◌++◌, none, some, arith, length, drop, Option-cases, inl, inr, length-drop,
}
use execkit.Text.Chars.{Bytes}
use execkit.Framing.Search.Windows.{length-starts_with}
use execkit.Framing.Markers.{Markers}
use execkit.Framing.Parse.{Parsed, Block, find_block, parse}
use execkit.Framing.Parse.FirstBlock.{
  IsFirstBlock, IsProper, find_block_of_first, first_of_find_block,
}
use execkit.Framing.Parse.Growth.{
  block_at-append, block_at-bounds, parsed_of-append, At-append, At-of_append,
}

-- A block that was found stays the first one, whatever more arrives.
IsFirstBlock-append :
    (acc more : Bytes) (m : Markers) (k : Block)
    → IsProper m
    → IsFirstBlock acc m 0 (some k)
    → IsFirstBlock (acc ++ more) m 0 (some k)
IsFirstBlock-append acc more m k proper h = (
  h.0,
  h.1,
  At-append m.end acc more h.0 proper.1 h.2,
  rw (block_at-append acc more m h.0 within_acc) h.3,
  λ j lj lt t.
      let fits_before : j + length m.end ≤ length acc = omega (arith, ends_in) in
      rw (block_at-append acc more m j (omega (arith, within_acc)))
        (h.4 j lj lt (At-of_append m.end acc more j fits_before t)),
)
  where
    ends_in : h.0 + length m.end ≤ length acc
    ends_in =
        omega (arith, length-starts_with m.end (drop h.0 acc) h.2, length-drop h.0 acc, proper.1)

    within_acc : h.0 ≤ length acc
    within_acc = omega (arith, ends_in)

pub parse_rejects :
    (acc : Bytes) (m : Markers) → IsProper m → parse acc m ≡ none → IsFirstBlock acc m 0 none
unfolding parse
parse_rejects acc m proper h = elim (Option-cases (find_block (suc (length acc)) acc m 0)) [
  | inl e ↦ first_of_find_block acc m proper.1 none e
  | inr (k, e) ↦ cc (rw (e, parse) at h)
]

pub parse_of_rejects :
    (acc : Bytes) (m : Markers) → IsProper m → IsFirstBlock acc m 0 none → parse acc m ≡ none
unfolding parse
parse_of_rejects acc m proper h = rw (find_block_of_first acc m proper.1 none h, parse)

-- Once the trailer has arrived, the result does not depend on what arrives after it: a parse that
-- succeeds on a buffer gives the same result on every longer one.
pub parse-append :
    (acc more : Bytes) (m : Markers) (p : Parsed)
    → IsProper m
    → parse acc m ≡ some p
    → parse (acc ++ more) m ≡ some p
unfolding parse
parse-append acc more m p proper h = elim (Option-cases (find_block (suc (length acc)) acc m 0)) [
  | inl e ↦ cc (rw (e, parse) at h)
  | inr (k, e) ↦
      let first = first_of_find_block acc m proper.1 (some k) e in
      let b = block_at-bounds acc m first.0 k proper.0 first.3 in
      let inside : first.0 ≤ length acc = omega (
        arith,
        length-starts_with m.end (drop first.0 acc) first.2,
        length-drop first.0 acc,
        proper.1,
      ) in
      rw
        (
          find_block_of_first (acc ++ more) m proper.1 (some k)
              (IsFirstBlock-append acc more m k proper first),
          parse,
        )
        (rw (parsed_of-append acc more m k (omega arith) (omega arith)) (rw (e, parse) at h))
]
