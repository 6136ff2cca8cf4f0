-- ===== src/Mcp/Watch/Render.antt =====
-- crates/execkit-mcp/src/watch/render.rs and `follow_lines` of mod.rs. The C library's local time is a
-- parameter, and so is the time of the day.
use execkit.Base.{
  ℕ, suc, ◌-◌, Bool, true, false, not, List, [], ◌∷◌, ◌++◌, Option, none, some, ◌==◌, ltb, filter,
  map, is_empty, if◌then◌else◌,
}
use execkit.Text.Chars.{Text, codes, eq_text}
use execkit.Text.Split.{split}
use execkit.Text.Decimal.{ℤ, pos, negsuc, decimal}
use execkit.Mcp.Audit.{AuditEvent, Exec, session_of}

pub data LineKind : Type 0 where
  prompt stdout stderr exit_ok exit_err marker : LineKind

pub record StyledLine : Type 0 where
  pub text : Text
  pub kind : LineKind

abbrev pub line : LineKind → Text → StyledLine
line kind text = record { text = text; kind = kind }

abbrev strip_newline : Text → Text
strip_newline [] = []
strip_newline (c ∷ []) = if c == b'\n' then [] else c ∷ []
strip_newline (c ∷ d ∷ cs) = c ∷ strip_newline (d ∷ cs)

unfoldable pub split_stream : Text → List Text
unfolding split
split_stream s = filter (λ l. not (is_empty l)) (split (λ c. c == b'\n') (strip_newline s))

-- `format!("{n}")` of an `i32`.
abbrev pub int_text : ℤ → Text
int_text (pos n) = decimal n
int_text (negsuc n) = b'-' ∷ decimal (suc n)

abbrev is_zero : ℤ → Bool
is_zero (pos n) = n == 0
is_zero (negsuc n) = false

abbrev exit_line : Exec → StyledLine
exit_line e =
    let tail =
      codes "  ("
      ++ (decimal e.duration_ms
          ++ (codes "ms)" ++ (if e.timed_out then codes "  [timed out]" else []))) in
    if is_zero e.exit_code
    then line LineKind.exit_ok (codes "ok exit 0" ++ tail)
    else line LineKind.exit_err (codes "x exit " ++ (int_text e.exit_code ++ tail))

abbrev exec_lines : Exec → List StyledLine
exec_lines e =
    line LineKind.prompt (e.cwd ++ (codes " $ " ++ e.command))
    ∷ (map (line LineKind.stdout) (split_stream e.stdout)
        ++ (map (line LineKind.stderr) (split_stream e.stderr)
            ++ ((if e.truncated
                  then line LineKind.marker (codes "... (output truncated)") ∷ []
                  else [])
                ++ exit_line e ∷ [])))

unfoldable pub render_event : AuditEvent → List StyledLine
unfolding split_stream decimal
render_event (AuditEvent.opened ts session transport) =
    line LineKind.marker (codes "-- opened: " ++ (transport ++ codes " --")) ∷ []
render_event (AuditEvent.close ts session reason) =
    line LineKind.marker (codes "-- closed (" ++ (reason ++ codes ") --")) ∷ []
render_event (AuditEvent.blocked ts session transport command reason) =
    line LineKind.exit_err
      (codes "! blocked: " ++ (command ++ (codes "  (" ++ (reason ++ codes ")"))))
    ∷ []
render_event (AuditEvent.exec ts e) = exec_lines e

-- A command shows its start; `saturating_sub`.
abbrev pub display_ts : AuditEvent → ℕ
display_ts (AuditEvent.exec ts e) = ts - e.duration_ms
display_ts (AuditEvent.opened ts session transport) = ts
display_ts (AuditEvent.close ts session reason) = ts
display_ts (AuditEvent.blocked ts session transport command reason) = ts

-- `last`: the day last shown, for each transcript.
abbrev pub Days : Type 0
Days = List (Text × Text)

abbrev pub day_of : Text → Days → Option Text
day_of key [] = none
day_of key ((k, day) ∷ days) = if eq_text k key then some day else day_of key days

abbrev pub set_day : Text → Text → Days → Days
set_day key day [] = (key, day) ∷ []
set_day key day ((k, d) ∷ days) =
    if eq_text k key then (k, day) ∷ days else (k, d) ∷ set_day key day days

-- `sort_by_key(display_ts)` is stable.
unfoldable pub insert_by_time : AuditEvent → List AuditEvent → List AuditEvent
insert_by_time ev [] = ev ∷ []
insert_by_time ev (f ∷ fs) =
    if ltb (display_ts f) (display_ts ev) then f ∷ insert_by_time ev fs else ev ∷ f ∷ fs

unfoldable pub sort_by_time : List AuditEvent → List AuditEvent
unfolding insert_by_time
sort_by_time [] = []
sort_by_time (ev ∷ evs) = insert_by_time ev (sort_by_time evs)

abbrev ansi : LineKind → Text
ansi LineKind.prompt = codes "1;36"
ansi LineKind.stdout = codes "0"
ansi LineKind.stderr = codes "31"
ansi LineKind.exit_ok = codes "32"
ansi LineKind.exit_err = codes "31"
ansi LineKind.marker = codes "90"

abbrev paint : Bool → StyledLine → Text
paint false l = l.text
paint true l = 27 ∷ b'[' ∷ (ansi l.kind ++ b'm' ∷ (l.text ++ (27 ∷ codes "[0m")))

module _ (local_time : ℕ → Option (Text × Text)) (now : ℕ) where
  abbrev stamp_first : Option (Text × Text) → List StyledLine → List StyledLine
  stamp_first none ls = ls
  stamp_first (some (day, time)) [] = []
  stamp_first (some (day, time)) (l ∷ ls) =
      record l { text = b'[' ∷ (time ++ (codes "] " ++ l.text)) } ∷ ls

  unfoldable pub render_event_stamped : AuditEvent → List StyledLine
  unfolding render_event
  render_event_stamped ev = stamp_first (local_time (display_ts ev)) (render_event ev)

  abbrev is_other : Option Text → Text → Bool
  is_other none day = true
  is_other (some d) day = not (eq_text d day)

  -- A transcript's first day is shown unless it is today.
  abbrev is_new_day : Option Text → Text → Bool
  is_new_day (some prev) day = not (eq_text prev day)
  is_new_day none day = elim (local_time now) [ none ↦ true | some t ↦ not (eq_text t.0 day) ]

  abbrev dated : Text → Days → Option (Text × Text) → Days × List StyledLine
  dated key days none = (days, [])
  dated key days (some (day, time)) = (
    set_day key day days,
    if is_new_day (day_of key days) day
        then line LineKind.marker (codes "-- " ++ (day ++ codes " --")) ∷ []
        else [],
  )

  -- `DateSeparators::before`: the days after it, and the date line where there is one.
  unfoldable pub before : Text → AuditEvent → Days → Days × List StyledLine
  unfolding eq_text
  before key ev days = dated key days (local_time (display_ts ev))

  abbrev event_lines : Bool → AuditEvent → List StyledLine → List Text
  event_lines color ev separator =
      map (paint color) separator
      ++ map (λ l. b'[' ∷ (session_of ev ++ (codes "] " ++ paint color l)))
          (render_event_stamped ev)

  unfoldable pub follow_sorted : Bool → Days → List AuditEvent → Days × List Text
  unfolding before render_event_stamped
  follow_sorted color days [] = (days, [])
  follow_sorted color days (ev ∷ evs) =
      let (days', separator) = before [] ev days in
      let rest = follow_sorted color days' evs in (rest.0, event_lines color ev separator ++ rest.1)

  unfoldable pub follow_lines : Bool → List AuditEvent → Days → Days × List Text
  unfolding sort_by_time follow_sorted
  follow_lines color events days = follow_sorted color days (sort_by_time events)
