-- ===== src/Mcp/Watch/Meta.antt =====
-- The viewer's stored preferences: crates/execkit-mcp/src/watch/meta.rs. Reading and printing JSON is the
-- serde crate's: `from_slice` and `to_vec_pretty`.
pub mod Caps
use execkit.Base.{
  ℕ, Bool, true, false, not, ◌&&◌, List, [], ◌∷◌, ◌++◌, Option, none, some, ltb, length, take,
  is_empty, if◌then◌else◌,
}
use execkit.Text.Chars.{Text, Bytes, codes}
use execkit.Text.Utf8.{as_bytes}
use execkit.Text.Decimal.{decimal}
use execkit.Mcp.Params.{Checked, good, bad}

abbrev pub max_state_bytes : ℕ
max_state_bytes = 262144

pub record SessionMeta : Type 0 where
  pub alias : Option Text
  pub pinned : Bool
  pub keep : Bool

pub record UiPrefs : Type 0 where
  pub sidebar_width : Option ℕ
  pub history_open : Bool

pub record ViewerState : Type 0 where
  pub sessions : List (Text × SessionMeta)
  pub ui : UiPrefs

abbrev pub no_state : ViewerState
no_state = record { sessions = []; ui = record { sidebar_width = none; history_open = false } }

-- An empty alias is dropped; `none` is an alias that is too long.
unfoldable pub capped : SessionMeta → Option Text → Option SessionMeta
unfolding as_bytes
capped m none = some m
capped m (some a) =
    if is_empty a
    then some (record m { alias = none })
    else if ltb 200 (length (as_bytes a))
    then none
    else some m

unfoldable pub cap_alias : SessionMeta → Option SessionMeta
unfolding capped
cap_alias m = capped m m.alias

abbrev pub cons_capped :
    Text
    → Option SessionMeta
    → Option (List (Text × SessionMeta))
    → Option (List (Text × SessionMeta))
cons_capped id none rest = none
cons_capped id (some m) none = none
cons_capped id (some m) (some ms) = some ((id, m) ∷ ms)

abbrev pub cap_aliases : List (Text × SessionMeta) → Option (List (Text × SessionMeta))
cap_aliases [] = some []
cap_aliases ((id, m) ∷ ms) = cons_capped id (cap_alias m) (cap_aliases ms)

abbrev pub width_ok : Option ℕ → Bool
width_ok none = true
width_ok (some w) = not (ltb w 120) && not (ltb 2000 w)

abbrev pub with_aliases : UiPrefs → Option (List (Text × SessionMeta)) → Checked ViewerState
with_aliases ui none = bad (codes "alias too long")
with_aliases ui (some ms) =
    if width_ok ui.sidebar_width
    then good (record { sessions = ms; ui = ui })
    else bad (codes "sidebar_width out of range")

abbrev pub validated : Checked ViewerState → Checked ViewerState
validated (bad e) = bad (codes "invalid state json: " ++ e)
validated (good st) = with_aliases st.ui (cap_aliases st.sessions)

unfoldable pub parse_validated : (Bytes → Checked ViewerState) → Bytes → Checked ViewerState
unfolding cap_alias decimal
parse_validated from_slice body =
    if ltb max_state_bytes (length body)
    then bad (
        codes "state too large ("
        ++ (decimal (length body) ++ (codes " > " ++ (decimal max_state_bytes ++ codes ")"))))
    else validated (from_slice body)

-- `none`: the file cannot be read.
unfoldable pub load : (Bytes → Checked ViewerState) → Option Bytes → ViewerState
load from_slice none = no_state
load from_slice (some bytes) = elim (from_slice bytes) [ good st ↦ st | bad e ↦ no_state ]

-- What becomes of a write: the file is not opened, or it is emptied and takes so many bytes.
pub data Write : Type 0 where
  not_opened : Write
  takes : ℕ → Write

abbrev pub on_write : Bytes → Option Bytes → Write → Option Bytes × Bool
on_write body file not_opened = (file, false)
on_write body file (takes n) = (some (take n body), not (ltb n (length body)))

abbrev pub on_printed : Option Bytes → Option Bytes → Write → Option Bytes × Bool
on_printed none file w = (file, false)
on_printed (some body) file w = on_write body file w

-- The file, and whether all of it was written.
unfoldable pub save :
    (ViewerState → Option Bytes) → Write → ViewerState → Option Bytes → Option Bytes × Bool
save to_vec_pretty w st file = on_printed (to_vec_pretty st) file w
