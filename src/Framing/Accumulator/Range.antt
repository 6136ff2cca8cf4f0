-- ===== src/Framing/Accumulator/Range.antt =====
-- What `compact_range` of crates/execkit/src/framing.rs keeps of a buffer.
use native.Mathlib.Decide.{dec_lt}
use execkit.Base.{
  ℕ, ◌+◌, ◌-◌, ◌*◌, ◌≤◌, ◌<◌, max, ◌≡◌, refl, ap, ◌∙◌, true, false, ◌++◌, arith, length, take, drop,
  leb, length-append, length-take, length-drop, drop-drop, take-append_le, drop-append_ge,
  take-take, lt→ltb,
}
use execkit.Text.Chars.{Bytes}
use execkit.Framing.Accumulator.Compact.{Zone, compact_range, elision_marker, old_sep}

drop_past :
    (n k : ℕ) (xs ys : Bytes) → length xs ≤ n → n - length xs ≡ k → drop n (xs ++ ys) ≡ drop k ys
drop_past n k xs ys h e = rw (← e) (drop-append_ge n xs ys h)

-- What `compact_range` promises of the buffer around the zone and of the two counts.
pub record Keeps (buf : Bytes) (from to keep elided : ℕ) (r : Zone) : Type 0 where
  pub before : take from r.buf ≡ take from buf
  pub behind : drop r.end r.buf ≡ drop to buf
  pub grows : from ≤ r.end
  pub inside : r.end ≤ length r.buf
  pub counted : r.end + r.elided + old_sep elided ≡ to + elided + old_sep r.elided
  pub bounded : r.end - from ≤ 2 * keep + max (old_sep elided) (old_sep r.elided)

module _ (buf : Bytes) (from to keep elided : ℕ) (ordered : from ≤ to)
    (in_buf : to ≤ length buf) where
  abbrev z : Zone
  z = compact_range buf from to keep elided

  -- Too short to shrink: nothing changes.
  short_zone :
      to - from ≤ 2 * keep + old_sep elided → z ≡ record { buf = buf; end = to; elided = elided }
  unfolding compact_range
  short_zone h =
      let t : leb (to - from) (2 * keep + old_sep elided) ≡ true = ground arith in
      rw (t, compact_range)

  abbrev dropped : ℕ
  dropped = elided + (to - keep - (from + keep) - old_sep elided)

  abbrev cut : Zone
  cut = record {
    buf = take (from + keep) buf ++ (elision_marker dropped ++ drop (to - keep) buf);
    end = to - (to - keep - (from + keep)) + length (elision_marker dropped);
    elided = dropped;
  }

  long_zone : 2 * keep + old_sep elided < to - from → z ≡ cut
  unfolding compact_range
  long_zone h =
      let t : leb (to - from) (2 * keep + old_sep elided) ≡ false = ground arith in
      rw (t, compact_range)

  take_cut : 2 * keep < to - from → take from cut.buf ≡ take from buf
  take_cut h =
      take-append_le from (take (from + keep) buf) _ (omega (arith, length-take (from + keep) buf))
      ∙ take-take from (from + keep) buf (omega arith)

  drop_cut : 2 * keep < to - from → drop cut.end cut.buf ≡ drop to buf
  drop_cut h =
      let l = length (elision_marker dropped) in
      let tail = elision_marker dropped ++ drop (to - keep) buf in
      drop_past cut.end (l + keep) (take (from + keep) buf) tail
        (omega (arith, length-take (from + keep) buf))
        (omega (arith, length-take (from + keep) buf))
      ∙ (drop_past (l + keep) keep (elision_marker dropped) (drop (to - keep) buf) (omega arith)
            (omega arith)
          ∙ (drop-drop keep (to - keep) buf ∙ ap (λ n. drop n buf) (omega arith)))

  length_cut : 2 * keep < to - from → cut.end ≤ length cut.buf
  length_cut h = omega (
    arith,
    length-append (take (from + keep) buf) (elision_marker dropped ++ drop (to - keep) buf),
    length-append (elision_marker dropped) (drop (to - keep) buf),
    length-take (from + keep) buf,
    length-drop (to - keep) buf,
  )

  old_sep_cut : 0 < dropped → old_sep dropped ≡ length (elision_marker dropped)
  unfolding old_sep
  old_sep_cut h = rw (lt→ltb 0 dropped h)

  -- For a zone that lies in the buffer: the bytes before it and behind it stay, its new end is not
  -- before its start and lies in the new buffer, the bytes kept and the bytes counted as dropped (the
  -- separators' lengths taken off) add up to what there was, and the zone is no longer than twice
  -- `keep` and a separator.
  pub compact_range-Keeps : Keeps buf from to keep elided z
  compact_range-Keeps = elim (dec_lt (2 * keep + old_sep elided) (to - from)) [
    | no h ↦ rw (short_zone (omega arith)) (record {
      before = refl;
      behind = refl;
      grows = ordered;
      inside = in_buf;
      counted = refl;
      bounded = omega arith;
    })
    | yes h ↦
        let sep = old_sep_cut (omega arith) in
        rw (long_zone h) (record {
          before = take_cut (omega arith);
          behind = drop_cut (omega arith);
          grows = omega arith;
          inside = length_cut (omega arith);
          counted = omega (arith, sep);
          bounded = omega (arith, sep);
        })
  ]
