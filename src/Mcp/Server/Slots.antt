-- ===== src/Mcp/Server/Slots.antt =====
-- No slot is lost and the cap is kept, in every order of the steps of concurrent calls
-- (crates/execkit-mcp/src/main.rs).
use execkit.Base.{
  ℕ, zero, suc, ◌+◌, ◌^◌, ◌≤◌, ◌≡◌, refl, subst, Bool, true, false, List, [], ◌∷◌, Option, none,
  some, ◌==◌, ltb, length, arith, Bool-cases, inl, inr,
}
use execkit.Text.Chars.{Text, eq_text, eq_text_iff}
use execkit.Mcp.Label.{session_id}
use execkit.Mcp.Label.Ids.{session_id-num}
use execkit.Mcp.Server.{
  SessionEntry, get, remove, fetch_add, reserve, release, next_num, register, unregister, update,
}
use execkit.Mcp.Server.Map.{get-insert_other, get-remove_unknown, get-alter_unknown}
use execkit.Mcp.Server.Gate.{
  World, Step, pick, step, run, start, arrived, rejects, fails, numbers, inserts, takes_out,
  gives_back,
}
use execkit.Mcp.Server.Counted.{
  count, Limit, IsCounted, IsFresh, pick-count, IsCounted-arrived, IsCounted-rejects,
  IsCounted-fails, IsCounted-numbers, IsCounted-gives_back, IsCounted-takes_out,
  IsCounted-use_entry, IsCounted-inserts,
}

-- Ids with different numbers differ.
other_id :
    (run_id : Text) (n m : ℕ) (label label' : Text)
    → (n == m) ≡ false
    → eq_text (session_id run_id n label) (session_id run_id m label') ≡ false
other_id run_id n m label label' other =
    elim (Bool-cases (eq_text (session_id run_id n label) (session_id run_id m label'))) [
      | inr d ↦ d
      | inl e ↦
          let same =
            session_id-num run_id n m label label'
              ((eq_text_iff (session_id run_id n label) (session_id run_id m label')).0 e) in
          absurd (ground arith)
    ]

module _ {R : Type 0} (run_id : Text) (max_sessions : ℕ) where
  IsFresh-numbers :
      (k : ℕ) (w : World R) (n : ℕ)
      → Limit k
      → IsCounted run_id max_sessions k w
      → IsFresh run_id max_sessions w
      → IsFresh run_id max_sessions (numbers run_id max_sessions w n)
  unfolding next_num
  IsFresh-numbers k w zero l c f = f
  IsFresh-numbers k w (suc n) l c f =
      let new = f.1 w.server.counter (omega arith) in
      (
        (λ m.
            let once = f.0 m in
            elim (Bool-cases (w.server.counter == m)) [
              | inl e ↦
                  let same : w.server.counter ≡ m = ground arith in
                  let no : count m w.numbered + count m w.opened ≡ 0 = rw same at new in
                  ground arith
              | inr e ↦ ground arith
            ]),
        (λ m h.
            let old : w.server.counter ≤ m = ground arith in
            let before = f.1 m old in ground arith),
        f.2,
      )

  IsFresh-inserts :
      (w : World R) (label : Text) (e : SessionEntry R) (i : ℕ) (o : Option (ℕ × List ℕ))
      → IsFresh run_id max_sessions w
      → pick i w.numbered ≡ o
      → IsFresh run_id max_sessions (inserts run_id max_sessions w label e o)
  unfolding register
  IsFresh-inserts w label e i none f p = f
  IsFresh-inserts w label e i (some (n, ns)) f p = (
    (λ m. let once = f.0 m in let cnt = pick-count m i w.numbered (n, ns) p in ground arith),
    (λ m h.
        let none_yet = f.1 m h in let cnt = pick-count m i w.numbered (n, ns) p in ground arith),
    (λ m label' h.
        let other : (n == m) ≡ false = ground arith in
        let old : count m w.opened ≡ 0 = ground arith in
        get-insert_other (session_id run_id n label) (session_id run_id m label') e
          w.server.sessions (other_id run_id n m label label' other) (f.2 m label' old)),
  )

  -- These touch neither the numbers nor the map.
  IsFresh-arrived :
      (w : World R) (live : ℕ) (b : Bool)
      → IsFresh run_id max_sessions w
      → IsFresh run_id max_sessions
          (arrived run_id max_sessions w (record w.server { live = live }, b))
  IsFresh-arrived w live true f = f
  IsFresh-arrived w live false f = f

  IsFresh-rejects :
      (w : World R) (n : ℕ)
      → IsFresh run_id max_sessions w
      → IsFresh run_id max_sessions (rejects run_id max_sessions w n)
  unfolding release
  IsFresh-rejects w zero f = f
  IsFresh-rejects w (suc n) f = f

  IsFresh-fails :
      (w : World R) (n : ℕ)
      → IsFresh run_id max_sessions w
      → IsFresh run_id max_sessions (fails run_id max_sessions w n)
  unfolding release
  IsFresh-fails w zero f = f
  IsFresh-fails w (suc n) f = f

  IsFresh-gives_back :
      (w : World R) (n : ℕ)
      → IsFresh run_id max_sessions w
      → IsFresh run_id max_sessions (gives_back run_id max_sessions w n)
  unfolding release
  IsFresh-gives_back w zero f = f
  IsFresh-gives_back w (suc n) f = f

  IsFresh-takes_out :
      (w : World R) (id : Text) (o : Option (SessionEntry R))
      → IsFresh run_id max_sessions w
      → IsFresh run_id max_sessions (
          takes_out run_id max_sessions w
            (record w.server { sessions = remove id w.server.sessions }, o))
  IsFresh-takes_out w id none f = (
    f.0,
    f.1,
    (λ n label h.
        get-remove_unknown id (session_id run_id n label) w.server.sessions (f.2 n label h)),
  )
  IsFresh-takes_out w id (some a) f = (
    f.0,
    f.1,
    (λ n label h.
        get-remove_unknown id (session_id run_id n label) w.server.sessions (f.2 n label h)),
  )

  abbrev IsSound : ℕ → World R → Type 0
  IsSound k w = IsCounted run_id max_sessions k w × IsFresh run_id max_sessions w

  step-IsSound :
      (k : ℕ) (w : World R) (st : Step R)
      → Limit k
      → IsSound k w
      → IsSound (k + 1) (step run_id max_sessions w st)
  unfolding step reserve release unregister update
  step-IsSound k w Step.arrive l (c, f) = (
    IsCounted-arrived run_id max_sessions k w l c (ltb w.server.live max_sessions) refl,
    IsFresh-arrived w (fetch_add w.server.live) (ltb w.server.live max_sessions) f,
  )
  step-IsSound k w Step.reject l (c, f) = (
    IsCounted-rejects run_id max_sessions k w l c w.rejected refl,
    IsFresh-rejects w w.rejected f,
  )
  step-IsSound k w Step.fail l (c, f) =
      (IsCounted-fails run_id max_sessions k w l c w.reserved refl, IsFresh-fails w w.reserved f)
  step-IsSound k w Step.number l (c, f) = (
    IsCounted-numbers run_id max_sessions k w l c w.reserved refl,
    IsFresh-numbers k w w.reserved l c f,
  )
  step-IsSound k w (Step.insert_at i label e) l (c, f) = (
    IsCounted-inserts run_id max_sessions k w l c f label e i (pick i w.numbered) refl,
    IsFresh-inserts w label e i (pick i w.numbered) f refl,
  )
  step-IsSound k w (Step.take_out id) l (c, f) = (
    IsCounted-takes_out run_id max_sessions k w l c id (get id w.server.sessions) refl,
    IsFresh-takes_out w id (get id w.server.sessions) f,
  )
  step-IsSound k w Step.give_back l (c, f) = (
    IsCounted-gives_back run_id max_sessions k w l c w.released refl,
    IsFresh-gives_back w w.released f,
  )
  step-IsSound k w (Step.use_entry id g) l (c, f) = (
    IsCounted-use_entry run_id max_sessions k w l c id g,
    (
      f.0,
      f.1,
      (λ n label h.
          get-alter_unknown id (session_id run_id n label) g w.server.sessions (f.2 n label h)),
    ),
  )

  run-IsSound :
      (k : ℕ) (w : World R) (sts : List (Step R))
      → k + length sts + 2 ≤ 2 ^ 64
      → IsSound k w
      → IsSound (k + length sts) (run run_id max_sessions w sts)
  unfolding run
  run-IsSound k w [] l s = subst (λ n. IsSound n w) (omega arith) s
  run-IsSound k w (st ∷ sts) l s =
      subst (λ n. IsSound n (run run_id max_sessions (step run_id max_sessions w st) sts))
        (omega arith)
        (run-IsSound (k + 1) (step run_id max_sessions w st) sts (omega arith)
          (step-IsSound k w st (omega arith) s))

  start-IsSound : IsSound 0 (start R)
  unfolding start get
  start-IsSound = (omega arith, ((λ n. omega arith), (λ n h. omega arith), (λ n label h. refl)))

abbrev pub IsAccounted : {R : Type 0} → ℕ → World R → Type 0
IsAccounted max_sessions w =
    (w.server.live
      ≡ length w.server.sessions + w.reserved + length w.numbered + w.rejected + w.released)
    × (length w.server.sessions ≤ max_sessions)

-- In every order of the steps of concurrent calls, as long as they are fewer than the counters' range
-- by two: the counter of live sessions is the number of sessions in the map plus the slots that calls
-- hold between two of their steps, and the map holds no more sessions than the cap.
pub run-IsAccounted :
    {R : Type 0} (run_id : Text) (max_sessions : ℕ) (sts : List (Step R))
    → length sts + 2 ≤ 2 ^ 64
    → IsAccounted max_sessions (run run_id max_sessions (start R) sts)
run-IsAccounted run_id max_sessions sts l =
    let s =
      run-IsSound run_id max_sessions 0 (start _) sts (omega arith)
        (start-IsSound run_id max_sessions) in
    (s.0.live_sum, omega arith)
