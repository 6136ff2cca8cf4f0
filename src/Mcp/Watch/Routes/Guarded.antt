-- ===== src/Mcp/Watch/Routes/Guarded.antt =====
-- What a connection can do to the viewer's state (crates/execkit-mcp/src/watch/web.rs and meta.rs).
use execkit.Base.{
  ℕ, suc, ◌≡◌, ◌⊎◌, refl, ◌∙◌, Bool, true, false, List, [], Option, none, some, ltb, take,
  if◌then◌else◌, Bool-cases, inl, inr,
}
use execkit.Text.Chars.{Bytes, codes, eq_text, eq_text_iff}
use execkit.Text.Utf8.{as_bytes}
use execkit.Mcp.Params.{Checked, good, bad}
use execkit.Mcp.Watch.Meta.{
  ViewerState, max_state_bytes, parse_validated, Write, not_opened, takes, on_write, on_printed,
  save,
}
use execkit.Mcp.Watch.Http.{Segment, Head, got, hung_up, Request, read_head, request_of, head_text}
use execkit.Mcp.Watch.Http.Compare.{ct_eq-eq_text}
use execkit.Mcp.Watch.Routes.{
  Outcome, closes, Ctx, Json, forbidden, saved, stored, on_body, read_body, body_start,
  content_length, handle_post_state, is_get, is_post_state, route, on_head, handle_conn, get_route,
  not_found,
}
use execkit.Mcp.Watch.Meta.Caps.{IsCapped, ForGood, parse_validated-IsCapped}

module _ (json : Json) (w : Write) (ctx : Ctx) where
  -- The file holds what a write of a capped state left in it.
  abbrev pub IsWritten : Option Bytes → Type 0
  IsWritten file =
      (st : ViewerState) × (body : Bytes) × (n : ℕ) × IsCapped st
      × (json.to_vec_pretty st ≡ some body)
      × (file ≡ some (take n body))

  abbrev pub IsKept : Option Bytes → Type 0
  IsKept file = (file ≡ ctx.state) ⊎ IsWritten file

  saved-IsKept : (r : Option Bytes × Bool) → IsKept r.0 → IsKept (saved r).0
  unfolding saved
  saved-IsKept (file, true) h = h
  saved-IsKept (file, false) h = h

  on_write-IsKept :
      (st : ViewerState) (body : Bytes) (v : Write)
      → IsCapped st
      → json.to_vec_pretty st ≡ some body
      → IsKept (on_write body ctx.state v).0
  on_write-IsKept st body not_opened c e = inl refl
  on_write-IsKept st body (takes n) c e = inr (st, body, n, c, e, refl)

  on_printed-IsKept :
      (st : ViewerState) (o : Option Bytes)
      → IsCapped st
      → json.to_vec_pretty st ≡ o
      → IsKept (on_printed o ctx.state w).0
  on_printed-IsKept st none c e = inl refl
  on_printed-IsKept st (some body) c e = on_write-IsKept st body w c e

  save-IsKept : (st : ViewerState) → IsCapped st → IsKept (save json.to_vec_pretty w st ctx.state).0
  unfolding save
  save-IsKept st c = on_printed-IsKept st (json.to_vec_pretty st) c refl

  stored-IsKept : (c : Checked ViewerState) → ForGood IsCapped c → IsKept (stored json w ctx c).0
  stored-IsKept (bad e) h = inl refl
  stored-IsKept (good st) h =
      saved-IsKept (save json.to_vec_pretty w st ctx.state) (save-IsKept st h)

  on_body-IsKept : (o : Option Bytes) → IsKept (on_body json w ctx o).0
  on_body-IsKept none = inl refl
  on_body-IsKept (some body) =
      stored-IsKept (parse_validated json.from_slice body)
        (parse_validated-IsCapped json.from_slice body)

  handle_post_state-IsKept :
      (buf : Bytes) (end : Option ℕ) (ss : List Segment)
      → IsKept (handle_post_state json w ctx buf end ss).0
  unfolding handle_post_state
  handle_post_state-IsKept buf end ss =
      let len = content_length (head_text buf end) in
      elim (Bool-cases (ltb max_state_bytes len)) [
        | inl l ↦ rw l (inl refl)
        | inr l ↦ rw l (on_body-IsKept (read_body (suc len) len (body_start len buf end) ss))
      ]

  -- Nothing is changed, and the client gets no more than a refusal.
  abbrev pub IsTurnedAway : Option Bytes × Outcome → Type 0
  IsTurnedAway r = (r.0 ≡ ctx.state) × ((r.1 ≡ closes) ⊎ (r.1 ≡ forbidden))

  -- The file is as it was, or the request is a POST of the state.
  abbrev pub IsAllowedBy : Request → Option Bytes → Type 0
  IsAllowedBy r file = (file ≡ ctx.state) ⊎ ((is_post_state r ≡ true) × IsWritten file)

  -- The request's head arrived, and it names the viewer's token.
  abbrev pub IsAuthorised : List Segment → Option Bytes → Type 0
  unfolding request_of read_head
  IsAuthorised ss file =
      (buf : Bytes) × (end : Option ℕ) × (rest : List Segment) × (read_head [] ss
        ≡ got buf end rest)
      × (as_bytes (request_of (head_text buf end)).supplied ≡ as_bytes ctx.token)
      × IsAllowedBy (request_of (head_text buf end)) file

  post-IsAllowedBy :
      (r : Request) (file : Option Bytes)
      → is_post_state r ≡ true
      → IsKept file
      → IsAllowedBy r file
  post-IsAllowedBy r file p (inl same) = inl same
  post-IsAllowedBy r file p (inr u) = inr (p, u)

  pick-IsAllowedBy :
      (r : Request) (get post other : Option Bytes × Outcome) (g p : Bool)
      → is_post_state r ≡ p
      → get.0 ≡ ctx.state
      → IsKept post.0
      → other.0 ≡ ctx.state
      → IsAllowedBy r (if g then get else if p then post else other).0
  pick-IsAllowedBy r get post other true p e h k o = inl h
  pick-IsAllowedBy r get post other false true e h k o = post-IsAllowedBy r post.0 e k
  pick-IsAllowedBy r get post other false false e h k o = inl o

  route-IsAllowedBy :
      (r : Request) (buf : Bytes) (end : Option ℕ) (ss : List Segment)
      → IsAllowedBy r (route json w ctx r buf end ss).0
  unfolding route
  route-IsAllowedBy r buf end ss =
      pick-IsAllowedBy r (ctx.state, get_route json ctx r.path)
        (handle_post_state json w ctx buf end ss) (ctx.state, not_found (codes "404 not found\n"))
        (is_get r) (is_post_state r) refl refl (handle_post_state-IsKept buf end ss) refl

  on_head-IsGuarded :
      (ss : List Segment) (h : Head)
      → read_head [] ss ≡ h
      → IsTurnedAway (on_head json w ctx h) ⊎ IsAuthorised ss (on_head json w ctx h).0
  unfolding on_head IsAuthorised
  on_head-IsGuarded ss hung_up e = inl (refl, inl refl)
  on_head-IsGuarded ss (got buf end rest) e =
      let r = request_of (head_text buf end) in
      elim (Bool-cases (eq_text (as_bytes r.supplied) (as_bytes ctx.token))) [
        | inr n ↦
            let c = ct_eq-eq_text (as_bytes r.supplied) (as_bytes ctx.token) ∙ n in
            rw c (inl (refl, inr refl))
        | inl t ↦
            let c = ct_eq-eq_text (as_bytes r.supplied) (as_bytes ctx.token) ∙ t in
            let same = (eq_text_iff (as_bytes r.supplied) (as_bytes ctx.token)).0 t in
            rw c (inr (buf, end, rest, e, same, route-IsAllowedBy r buf end rest))
      ]

  -- Whatever arrives on a connection, in whatever pieces, and whatever becomes of the write: either the
  -- state file stays as it is and the client gets nothing or a 403, or the head of the request names the
  -- token; and then the file changes only at a POST of the state, and holds the beginning of a state
  -- whose aliases are not empty and have at most 200 bytes and whose sidebar is 120 to 2000 wide.
  pub handle_conn-IsGuarded :
      (ss : List Segment)
      → IsTurnedAway (handle_conn json w ctx ss) ⊎ IsAuthorised ss (handle_conn json w ctx ss).0
  unfolding handle_conn
  handle_conn-IsGuarded ss = on_head-IsGuarded ss (read_head [] ss) refl
