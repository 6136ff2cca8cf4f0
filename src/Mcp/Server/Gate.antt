-- ===== src/Mcp/Server/Gate.antt =====
-- Calls that run at the same time (crates/execkit-mcp/src/main.rs): each takes the atomic steps of
-- Mcp/Server one at a time, in any order. A `World` is the server with what the calls hold between two
-- of their steps.
use execkit.Base.{ℕ, zero, suc, ◌+◌, Bool, true, false, List, [], ◌∷◌, Option, none, some}
use execkit.Text.Chars.{Text}
use execkit.Mcp.Label.{session_id}
use execkit.Mcp.Server.{
  SessionEntry, Server, reserve, release, next_num, register, unregister, update,
}

-- `reserved` calls hold a slot and build a session, those of `numbered` have one and its number,
-- `rejected` calls have yet to undo their reservation, and `released` have removed a session and not
-- yet given its slot back. `opened` are the numbers of the sessions that were put in the map.
pub record World (R : Type 0) : Type 0 where
  pub server : Server R
  pub reserved : ℕ
  pub numbered : List ℕ
  pub rejected : ℕ
  pub released : ℕ
  pub opened : List ℕ

-- A step of some call. A step that no call can take changes nothing.
pub data Step (R : Type 0) : Type 0 where
  -- `session_create`: `fetch_add`; the undone reservation; a failed build; the number; the insertion.
  arrive reject fail number : Step R
  insert_at : ℕ → Text → SessionEntry R → Step R
  -- `session_destroy`, `session_exec` and `reap_idle`: the removal, then `fetch_sub`.
  take_out : Text → Step R
  give_back : Step R
  -- A call on a session: its entry changes.
  use_entry : Text → (SessionEntry R → SessionEntry R) → Step R

-- The element at a place, and the others.
abbrev pub pick : ℕ → List ℕ → Option (ℕ × List ℕ)
pick i [] = none
pick zero (n ∷ ns) = some (n, ns)
pick (suc i) (n ∷ ns) = elim (pick i ns) [ none ↦ none | some r ↦ some (r.0, n ∷ r.1) ]

module _ {R : Type 0} (run_id : Text) (max_sessions : ℕ) where
  abbrev pub arrived : World R → Server R × Bool → World R
  arrived w (s, true) = record w { server = s; reserved = w.reserved + 1 }
  arrived w (s, false) = record w { server = s; rejected = w.rejected + 1 }

  abbrev pub rejects : World R → ℕ → World R
  rejects w zero = w
  rejects w (suc n) = record w { server = release w.server; rejected = n }

  abbrev pub fails : World R → ℕ → World R
  fails w zero = w
  fails w (suc n) = record w { server = release w.server; reserved = n }

  abbrev pub numbers : World R → ℕ → World R
  numbers w zero = w
  numbers w (suc n) =
      let r = next_num w.server in
      record w { server = r.0; reserved = n; numbered = r.1 ∷ w.numbered }

  abbrev pub inserts : World R → Text → SessionEntry R → Option (ℕ × List ℕ) → World R
  inserts w label e none = w
  inserts w label e (some (n, ns)) = record w {
    server = register (session_id run_id n label) e w.server;
    numbered = ns;
    opened = n ∷ w.opened;
  }

  abbrev pub takes_out : World R → Server R × Option (SessionEntry R) → World R
  takes_out w (s, none) = record w { server = s }
  takes_out w (s, some e) = record w { server = s; released = w.released + 1 }

  abbrev pub gives_back : World R → ℕ → World R
  gives_back w zero = w
  gives_back w (suc n) = record w { server = release w.server; released = n }

  unfoldable pub step : World R → Step R → World R
  unfolding reserve release next_num register unregister update session_id
  step w Step.arrive = arrived w (reserve max_sessions w.server)
  step w Step.reject = rejects w w.rejected
  step w Step.fail = fails w w.reserved
  step w Step.number = numbers w w.reserved
  step w (Step.insert_at i label e) = inserts w label e (pick i w.numbered)
  step w (Step.take_out id) = takes_out w (unregister id w.server)
  step w Step.give_back = gives_back w w.released
  step w (Step.use_entry id f) = record w { server = update id f w.server }

  unfoldable pub run : World R → List (Step R) → World R
  unfolding step
  run w [] = w
  run w (st ∷ sts) = run (step w st) sts

unfoldable pub start : (R : Type 0) → World R
start R = record {
  server = record { sessions = []; live = 0; counter = 1; log = [] };
  reserved = 0;
  numbered = [];
  rejected = 0;
  released = 0;
  opened = [];
}
