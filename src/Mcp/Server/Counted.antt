-- ===== src/Mcp/Server/Counted.antt =====
-- The counters of the server (crates/execkit-mcp/src/main.rs) over one step of a call.
use execkit.Base.{
  ℕ, zero, suc, ◌+◌, ◌^◌, ◌≤◌, ◌<◌, ◌≡◌, Bool, true, false, List, [], ◌∷◌, Option, none, some, ◌==◌,
  ltb, length, if◌then◌else◌, arith, Option-cases, inl, inr,
}
use execkit.Text.Chars.{Text}
use execkit.Mcp.Label.{session_id}
use execkit.Mcp.Server.{SessionEntry, get, remove, fetch_add, release, next_num, register, update}
use execkit.Mcp.Server.Map.{length-remove, remove_unknown, length-alter, length-insert_new}
use execkit.Mcp.Server.Gate.{
  World, pick, arrived, rejects, fails, numbers, inserts, takes_out, gives_back,
}

abbrev pub count : ℕ → List ℕ → ℕ
count n [] = 0
count n (m ∷ ms) = (if m == n then 1 else 0) + count n ms

pub pick-length :
    (i : ℕ) (ns : List ℕ) (r : ℕ × List ℕ) → pick i ns ≡ some r → length ns ≡ suc (length r.1)
pick-length i [] r h = cc
pick-length zero (n ∷ ns) r h = ground arith
pick-length (suc i) (n ∷ ns) r h = elim (Option-cases (pick i ns)) [
  | inl e ↦ absurd (ground arith)
  | inr (q, e) ↦ ground (arith, pick-length i ns q e)
]

pub pick-count :
    (k i : ℕ) (ns : List ℕ) (r : ℕ × List ℕ) → pick i ns ≡ some r → count k ns ≡ count k (r.0 ∷ r.1)
pick-count k i [] r h = cc
pick-count k zero (n ∷ ns) r h = ground arith
pick-count k (suc i) (n ∷ ns) r h = elim (Option-cases (pick i ns)) [
  | inl e ↦ absurd (ground arith)
  | inr (q, e) ↦ ground (arith, pick-count k i ns q e)
]

-- Fewer steps than the counters' range.
abbrev pub Limit : ℕ → Type 0
Limit k = k + 2 < 2 ^ 64

module _ {R : Type 0} (run_id : Text) (max_sessions : ℕ) where
  -- The counter of live sessions counts the sessions in the map and the slots that calls hold, and the
  -- sessions and the slots of calls that may still open one are within the cap; after `k` steps.
  pub record IsCounted (k : ℕ) (w : World R) : Type 0 where
    pub live_sum :
        w.server.live
        ≡ length w.server.sessions + w.reserved + length w.numbered + w.rejected + w.released
    pub capped : length w.server.sessions + w.reserved + length w.numbered ≤ max_sessions
    pub live_steps : w.server.live ≤ k
    pub counter_steps : w.server.counter ≤ k + 1

  -- A number is given once, and a session in the map has a number that was given.
  abbrev pub IsFresh : World R → Type 0
  IsFresh w =
      ((n : ℕ) → count n w.numbered + count n w.opened ≤ 1)
      × ((n : ℕ) → w.server.counter ≤ n → count n w.numbered + count n w.opened ≡ 0)
      × ((n : ℕ) (label : Text)
          → count n w.opened ≡ 0
          → get (session_id run_id n label) w.server.sessions ≡ none)

module _ {R : Type 0} (run_id : Text) (max_sessions k : ℕ) (w : World R) (l : Limit k)
    (c : IsCounted run_id max_sessions k w) where
  pub IsCounted-arrived :
      (b : Bool)
      → ltb w.server.live max_sessions ≡ b
      → IsCounted run_id max_sessions
          (k + 1)
          (arrived run_id max_sessions w (record w.server { live = fetch_add w.server.live }, b))
  IsCounted-arrived true e = ground arith
  IsCounted-arrived false e = ground arith

  pub IsCounted-rejects :
      (n : ℕ)
      → w.rejected ≡ n
      → IsCounted run_id max_sessions (k + 1) (rejects run_id max_sessions w n)
  unfolding release
  IsCounted-rejects zero e = ground arith
  IsCounted-rejects (suc n) e = ground arith

  pub IsCounted-fails :
      (n : ℕ)
      → w.reserved ≡ n
      → IsCounted run_id max_sessions (k + 1) (fails run_id max_sessions w n)
  unfolding release
  IsCounted-fails zero e = ground arith
  IsCounted-fails (suc n) e = ground arith

  pub IsCounted-numbers :
      (n : ℕ)
      → w.reserved ≡ n
      → IsCounted run_id max_sessions (k + 1) (numbers run_id max_sessions w n)
  unfolding next_num
  IsCounted-numbers zero e = ground arith
  IsCounted-numbers (suc n) e = ground arith

  pub IsCounted-gives_back :
      (n : ℕ)
      → w.released ≡ n
      → IsCounted run_id max_sessions (k + 1) (gives_back run_id max_sessions w n)
  unfolding release
  IsCounted-gives_back zero e = ground arith
  IsCounted-gives_back (suc n) e = ground arith

  pub IsCounted-takes_out :
      (id : Text) (o : Option (SessionEntry R))
      → get id w.server.sessions ≡ o
      → IsCounted run_id max_sessions (k + 1) (
          takes_out run_id max_sessions w
            (record w.server { sessions = remove id w.server.sessions }, o))
  IsCounted-takes_out id none g = let e = remove_unknown id w.server.sessions g in ground arith
  IsCounted-takes_out id (some a) g = let e = length-remove id w.server.sessions a g in ground arith

  pub IsCounted-use_entry :
      (id : Text) (f : SessionEntry R → SessionEntry R)
      → IsCounted run_id max_sessions (k + 1) (record w { server = update id f w.server })
  unfolding update
  IsCounted-use_entry id f = let e = length-alter id f w.server.sessions in ground arith

  pub IsCounted-inserts :
      IsFresh run_id max_sessions w
      → (label : Text) (e : SessionEntry R) (i : ℕ) (o : Option (ℕ × List ℕ))
      → pick i w.numbered ≡ o
      → IsCounted run_id max_sessions (k + 1) (inserts run_id max_sessions w label e o)
  unfolding register
  IsCounted-inserts f label e i none p = ground arith
  IsCounted-inserts f label e i (some (n, ns)) p =
      let len = pick-length i w.numbered (n, ns) p in
      let cnt = pick-count n i w.numbered (n, ns) p in
      let once = f.0 n in
      let unused : count n w.opened ≡ 0 = ground arith in
      let new =
        length-insert_new (session_id run_id n label) e w.server.sessions (f.2 n label unused) in
      ground arith
