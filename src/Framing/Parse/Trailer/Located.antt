-- ===== src/Framing/Parse/Trailer/Located.antt =====
-- The block that `find_block` finds in a printed stream.
use native.Mathlib.Nat.{zero-add}
use execkit.Base.{
  ℕ, suc, ◌+◌, ◌-◌, ◌≡◌, refl, sym, ap, ◌∙◌, List, [], ◌∷◌, ◌++◌, some, arith, length, take, drop,
  slice, length-append, append_assoc, take-append_self, drop-append_self, slice_mid,
}
use execkit.Text.Chars.{Text, Bytes, codes}
use execkit.Framing.Search.{find, rfind}
use execkit.Framing.Search.Segments.{
  Free, Clear, Skips, Clear-short, Clear-sep, Clear-after_self, Skips-sep, starts_with-append,
  find_behind, rfind_behind,
}
use execkit.Framing.Markers.{Markers, us, new_markers}
use execkit.Framing.Parse.{Block, separators, block_at, find_block}
use execkit.Framing.Parse.Trailer.Token.{
  IsToken, printed, separators_at, Free-start, Free-end, Clear-start, Clear-end, overlap,
}

pub record Fits (token : Text) (out code cwd err : Bytes) : Type 0 where
  pub out_clear : Clear token out
  pub code_clear : Clear token code
  pub cwd_clear : Clear token cwd
  pub err_clear : Clear token err
  pub code_free : Free us code
  pub cwd_free : Free us cwd

module _ (token : Text) (tok : IsToken token) (out code cwd err rest : Bytes)
    (honest : Fits token out code cwd err) where
  abbrev pub mk : Markers
  mk = new_markers token

  abbrev pub between : Bytes
  between = us ∷ (code ++ (us ∷ (cwd ++ (us ∷ err))))

  abbrev pub before : Bytes
  before = out ++ b'\n' ∷ []

  abbrev pub stream : Bytes
  stream = (out ++ printed mk code cwd err) ++ (mk.end ++ rest)

  cut_between : out ++ printed mk code cwd err ≡ (before ++ mk.start) ++ between
  cut_between = simp append_assoc

  first_end : find stream mk.end ≡ some (length (out ++ printed mk code cwd err))
  unfolding new_markers
  first_end =
      find_behind b'_' (codes "_EXECKITEND_" ++ (token ++ codes "__"))
        (out ++ printed mk code cwd err) (mk.end ++ rest) skips (starts_with-append mk.end rest)
    where
      at_us : Free us mk.end
      at_us = Free-end token tok us refl refl refl

      skips : Skips mk.end (out ++ printed mk code cwd err) (mk.end ++ rest)
      skips =
          Skips-sep mk.end b'\n' (Free-end token tok b'\n' refl refl refl) out _ _
            (Clear-end token tok out honest.out_clear)
            (Skips-sep mk.end us at_us mk.start _ _
              (Clear-short mk.end mk.start (omega (arith, length-append token (codes "__"))))
              (Skips-sep mk.end us at_us code _ _ (Clear-end token tok code honest.code_clear) (
                Skips-sep mk.end us at_us cwd _ _ (Clear-end token tok cwd honest.cwd_clear)
                  (overlap token tok err rest honest.err_clear))))

  last_start : rfind (out ++ printed mk code cwd err) mk.start ≡ some (length before)
  unfolding new_markers
  last_start = rw cut_start (
      rfind_behind b'_' (codes "_EXECKIT_" ++ (token ++ codes "__")) before (mk.start ++ between)
        (starts_with-append mk.start between)
        (λ j pos. Clear-after_self mk.start us at_us _ j pos (omega arith) clear))
    where
      at_us : Free us mk.start
      at_us = Free-start token tok us refl refl refl

      cut_start : out ++ printed mk code cwd err ≡ before ++ (mk.start ++ between)
      cut_start = simp append_assoc

      clear : Clear mk.start (code ++ (us ∷ (cwd ++ (us ∷ err))))
      clear = Clear-sep mk.start us at_us code _ (Clear-start token tok code honest.code_clear) (
          Clear-sep mk.start us at_us cwd err (Clear-start token tok cwd honest.cwd_clear)
            (Clear-start token tok err honest.err_clear))

  abbrev pub block : Block
  block = record {
    start_pos = length before;
    end_pos = length (out ++ printed mk code cwd err);
    s0 = 0;
    s1 = 1 + length code;
    s2 = 1 + length code + 1 + length cwd;
  }

  pub block_slice :
      slice (length before + length mk.start) (length (out ++ printed mk code cwd err)) stream
      ≡ between
  block_slice =
      rw (← length-append before mk.start, cut_between)
        (slice_mid (before ++ mk.start) between (mk.end ++ rest))

  separators-between :
      (more : List ℕ) × (separators 0 between
        ≡ 0 ∷ (1 + length code) ∷ (1 + length code + 1 + length cwd) ∷ more)
  unfolding separators
  separators-between = (
    separators (1 + length code + 1 + length cwd + 1) err,
    ap (◌∷◌ 0) (
        separators_at 1 code (cwd ++ (us ∷ err)) honest.code_free
        ∙ ap (◌∷◌ (1 + length code)) (separators_at (1 + length code + 1) cwd err honest.cwd_free)),
  )

  block_found : block_at stream mk (length (out ++ printed mk code cwd err)) ≡ some block
  unfolding block_at
  block_found = rw (
    take-append_self (out ++ printed mk code cwd err) (mk.end ++ rest),
    last_start,
    block_slice,
    separators-between.1,
    block_at,
  )

  pub found : find_block (suc (length stream)) stream mk 0 ≡ some block
  unfolding find_block
  found = rw (first_end, zero-add, block_found, find_block)

  pub parts :
      (take (length before) stream ≡ before)
      × (slice 1 (1 + length code) between ≡ code)
      × (slice (1 + length code + 1) (1 + length code + 1 + length cwd) between ≡ cwd)
      × (drop (1 + length code + 1 + length cwd + 1) between ≡ err)
  parts = (
    rw cut_out (take-append_self before _),
    rw minus_one (take-append_self code _),
    rw (at_cwd, at_err, cut_cwd) (slice_mid upto_cwd cwd (us ∷ err)),
    rw (at_end, cut_err) (drop-append_self upto_err err),
  )
    where
      cut_out : stream ≡ before ++ ((mk.start ++ between) ++ (mk.end ++ rest))
      cut_out = simp append_assoc

      minus_one : 1 + length code - 1 ≡ length code
      minus_one = omega arith

      upto_cwd : Bytes
      upto_cwd = us ∷ (code ++ us ∷ [])

      upto_err : Bytes
      upto_err = us ∷ (code ++ (us ∷ (cwd ++ us ∷ [])))

      at_cwd : 1 + length code + 1 ≡ length upto_cwd
      at_cwd = omega (arith, length-append code (us ∷ []))

      at_err : length upto_cwd + length cwd ≡ length (upto_cwd ++ cwd)
      at_err = sym (length-append upto_cwd cwd)

      at_end : 1 + length code + 1 + length cwd + 1 ≡ length upto_err
      at_end =
          omega (arith, length-append code (us ∷ (cwd ++ us ∷ [])), length-append cwd (us ∷ []))

      cut_cwd : between ≡ (upto_cwd ++ cwd) ++ us ∷ err
      cut_cwd = simp append_assoc

      cut_err : between ≡ upto_err ++ err
      cut_err = simp append_assoc
