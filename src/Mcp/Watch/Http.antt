-- ===== src/Mcp/Watch/Http.antt =====
-- The viewer's connections, of crates/execkit-mcp/src/watch/web.rs: `find_subslice`, `ct_eq`,
-- `handle_conn`, `handle_post_state` and `write_simple`. A socket is what it will give to the reads.
pub mod Compare
use execkit.Base.{
  ℕ, zero, suc, ◌+◌, ◌-◌, Bool, true, false, not, ◌&&◌, List, [], ◌∷◌, ◌++◌, Option, none, some,
  ◌==◌, ltb, leb, length, take, drop, map, min, is_empty, if◌then◌else◌,
}
use Prim.Native.Nat.{bit_or, bit_xor}
use execkit.Text.Chars.{Text, Bytes, codes, starts_with, eq_text, to_ascii_lowercase}
use execkit.Text.Split.{split, split_once, split_whitespace, lines, trim}
use execkit.Text.Utf8.{as_bytes, from_utf8_lossy}
use execkit.Text.Decimal.{decimal, parse_unsigned}
use execkit.Mcp.Params.{Checked, good, bad}
use execkit.Mcp.Watch.Meta.{ViewerState, max_state_bytes, parse_validated, load, save, Write}
use execkit.Mcp.Watch.Web.{SessionInfo, Entry, WireLine, list_sessions}

-- The position of a needle that is not empty.
unfoldable pub find_subslice : Bytes → Bytes → Option ℕ
unfolding starts_with
find_subslice [] needle = none
find_subslice (b ∷ bs) needle =
    let rest = find_subslice bs needle in
    if starts_with needle (b ∷ bs)
    then some 0
    else elim rest [ none ↦ none | some i ↦ some (suc i) ]

abbrev pub diff_from : ℕ → Bytes → Bytes → ℕ
diff_from diff [] ys = diff
diff_from diff (x ∷ xs) [] = diff
diff_from diff (x ∷ xs) (y ∷ ys) = diff_from (bit_or diff (bit_xor x y)) xs ys

unfoldable pub ct_eq : Bytes → Bytes → Bool
ct_eq a b = if not (length a == length b) then false else diff_from 0 a b == 0

-- What a read gives: bytes that have arrived, or an error. An empty read, like the end of the list, is
-- the end of the stream.
pub data Segment : Type 0 where
  arrived : Bytes → Segment
  broken : Segment

-- What a read of `room` bytes leaves of a segment.
abbrev pub left_over : ℕ → Bytes → List Segment → List Segment
left_over room c ss = if ltb room (length c) then arrived (drop room c) ∷ ss else ss

pub data Head : Type 0 where
  hung_up : Head
  got : Bytes → Option ℕ → List Segment → Head

abbrev pub blank_line : Bytes
blank_line = codes "\r\n\r\n"

abbrev pub after_read : Bytes → Option ℕ → List Segment → Head → Head
after_read buf (some p) ss more = got buf (some (p + 4)) ss
after_read buf none ss more = if length buf == 8192 then got buf none ss else more

-- The request head; the buffer holds 8192 bytes.
unfoldable pub read_head : Bytes → List Segment → Head
unfolding find_subslice
read_head buf [] = hung_up
read_head buf (broken ∷ ss) = hung_up
read_head buf (arrived c ∷ ss) =
    let room = 8192 - length buf in
    let buf' = buf ++ take room c in
    let more = read_head buf' ss in
    if is_empty c
    then hung_up
    else after_read buf' (find_subslice buf' blank_line) (left_over room c ss) more

abbrev pub first_or_empty : List Text → Text
first_or_empty [] = []
first_or_empty (w ∷ ws) = w

abbrev pub second_or_empty : List Text → Text
second_or_empty [] = []
second_or_empty (w ∷ ws) = first_or_empty ws

-- `strip_prefix`, and the first of a list that has it.
abbrev pub strip_prefix : Text → Text → Option Text
strip_prefix p t = if starts_with p t then some (drop (length p) t) else none

abbrev pub find_prefixed : Text → List Text → Option Text
find_prefixed p [] = none
find_prefixed p (t ∷ ts) = if starts_with p t then some (drop (length p) t) else find_prefixed p ts

abbrev pub text_or_empty : Option Text → Text
text_or_empty none = []
text_or_empty (some t) = t

pub record Request : Type 0 where
  pub method : Text
  pub path : Text
  pub supplied : Text

abbrev pub before_body : Bytes → Option ℕ → Bytes
before_body buf none = buf
before_body buf (some end) = take end buf

abbrev pub head_text : Bytes → Option ℕ → Text
head_text buf head_end = from_utf8_lossy (before_body buf head_end)

unfoldable pub request_of : Text → Request
unfolding lines split_whitespace split_once split starts_with
request_of head =
    let parts = split_whitespace (first_or_empty (lines head)) in
    let target = split_once (λ c. c == b'?') (second_or_empty parts) in
    record {
      method = first_or_empty parts;
      path = target.0;
      supplied =
          text_or_empty
            (find_prefixed (codes "t=") (split (λ c. c == b'&') (text_or_empty target.1)));
    }

-- `write_simple`.
unfoldable pub write_simple : Text → Text → Bytes → Bytes
unfolding decimal as_bytes
write_simple status content_type body =
    as_bytes (
      codes "HTTP/1.1 "
      ++ (status
          ++ (codes "\r\nContent-Type: "
              ++ (content_type
                  ++ (codes "\r\nContent-Length: "
                      ++ (decimal (length body)
                          ++ codes "\r\nCache-Control: no-store\r\nConnection: close\r\n\r\n"))))))
    ++ body
