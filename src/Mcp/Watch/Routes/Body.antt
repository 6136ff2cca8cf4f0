-- ===== src/Mcp/Watch/Routes/Body.antt =====
-- The loop of crates/execkit-mcp/src/watch/web.rs that reads a request's body ends.
use execkit.Base.{
  ℕ, zero, suc, ◌+◌, ◌<◌, ◌≡◌, refl, false, List, [], ◌∷◌, ◌++◌, some, ltb, length, length-append,
  take, arith,
}
use execkit.Text.Chars.{Bytes}
use execkit.Mcp.Watch.Http.{Segment, arrived, broken, left_over}
use execkit.Mcp.Watch.Routes.{read_body}

-- A body that is long enough is done.
read_body-done :
    (f len : ℕ) (body : Bytes) (ss : List Segment)
    → ltb (length body) len ≡ false
    → read_body f len body ss ≡ some body
unfolding read_body
read_body-done zero len body ss h = refl
read_body-done (suc f) len body [] h = refl
read_body-done (suc f) len body (broken ∷ ss) h = rw h refl
read_body-done (suc f) len body (arrived c ∷ ss) h = rw h refl

-- Any two fuels above what is missing give the same.
read_body-fuel :
    (f g len : ℕ) (body : Bytes) (ss : List Segment)
    → len < f + length body
    → len < g + length body
    → read_body f len body ss ≡ read_body g len body ss
unfolding read_body
read_body-fuel zero g len body ss h k =
    let d : ltb (length body) len ≡ false = ground arith in rw (read_body-done g len body ss d) refl
read_body-fuel (suc f) zero len body ss h k =
    let d : ltb (length body) len ≡ false = ground arith in
    rw (read_body-done (suc f) len body ss d) refl
read_body-fuel (suc f) (suc g) len body [] h k = refl
read_body-fuel (suc f) (suc g) len body (broken ∷ ss) h k = refl
read_body-fuel (suc f) (suc g) len body (arrived [] ∷ ss) h k = refl
read_body-fuel (suc f) (suc g) len body (arrived (c ∷ cs) ∷ ss) h k =
    let body' = body ++ take 4096 (c ∷ cs) in
    rw
      (read_body-fuel f g len body' (left_over 4096 (c ∷ cs) ss)
        (omega (arith, length-append body (take 4096 (c ∷ cs))))
        (omega (arith, length-append body (take 4096 (c ∷ cs)))))
      refl
