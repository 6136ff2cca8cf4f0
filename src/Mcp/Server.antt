-- ===== src/Mcp/Server.antt =====
-- The server's state of crates/execkit-mcp/src/main.rs and its atomic steps: the session map, the
-- counter of live sessions, and the counter of session numbers.
pub mod Map
pub mod Handlers
pub mod Exec
pub mod Gate
pub mod Counted
pub mod Slots
pub mod Runs
use execkit.Base.{
  ℕ, ◌+◌, ◌-◌, ◌%◌, ◌^◌, Bool, true, false, not, ◌&&◌, List, [], ◌∷◌, ◌++◌, Option, none, some, ltb,
  leb, if◌then◌else◌,
}
use execkit.Text.Chars.{Text, codes, eq_text}
use execkit.Session.State.{Session}
use execkit.Mcp.Paths.{FilePath}
use execkit.Mcp.Audit.{Log}

-- A map of sessions: `HashMap`, as its entries.
module _ {ℓ} {A : Type ℓ} where
  unfoldable pub get : Text → List (Text × A) → Option A
  get id [] = none
  get id ((k, a) ∷ m) = if eq_text k id then some a else get id m

  unfoldable pub insert : Text → A → List (Text × A) → List (Text × A)
  insert id a [] = (id, a) ∷ []
  insert id a ((k, b) ∷ m) = if eq_text k id then (id, a) ∷ m else (k, b) ∷ insert id a m

  unfoldable pub remove : Text → List (Text × A) → List (Text × A)
  remove id [] = []
  remove id ((k, b) ∷ m) = if eq_text k id then m else (k, b) ∷ remove id m

  -- A change through `get`.
  unfoldable pub alter : Text → (A → A) → List (Text × A) → List (Text × A)
  alter id f [] = []
  alter id f ((k, b) ∷ m) = if eq_text k id then (k, f b) ∷ m else (k, b) ∷ alter id f m

-- `fetch_add(1)` and `fetch_sub(1)` on 64 bits.
abbrev pub fetch_add : ℕ → ℕ
fetch_add n = (n + 1) % 2 ^ 64

abbrev pub fetch_sub : ℕ → ℕ
fetch_sub n = (n + (2 ^ 64 - 1)) % 2 ^ 64

-- `busy` is a session whose lock another call holds. Times are milliseconds.
pub record SessionEntry (R : Type 0) : Type 0 where
  pub session : Session R
  pub busy : Bool
  pub last_used : ℕ
  pub transport : Text
  pub audit : Option FilePath

pub record Server (R : Type 0) : Type 0 where
  pub sessions : List (Text × SessionEntry R)
  pub live : ℕ
  pub counter : ℕ
  pub log : Log

module _ {R : Type 0} where
  -- The reservation, and whether the cap lets it stand.
  unfoldable pub reserve : ℕ → Server R → Server R × Bool
  reserve max_sessions s = (record s { live = fetch_add s.live }, ltb s.live max_sessions)

  unfoldable pub release : Server R → Server R
  release s = record s { live = fetch_sub s.live }

  unfoldable pub next_num : Server R → Server R × ℕ
  next_num s = (record s { counter = fetch_add s.counter }, s.counter)

  unfoldable pub register : Text → SessionEntry R → Server R → Server R
  unfolding insert
  register id e s = record s { sessions = insert id e s.sessions }

  unfoldable pub unregister : Text → Server R → Server R × Option (SessionEntry R)
  unfolding get remove
  unregister id s = (record s { sessions = remove id s.sessions }, get id s.sessions)

  -- A change of one entry.
  unfoldable pub update : Text → (SessionEntry R → SessionEntry R) → Server R → Server R
  unfolding alter
  update id f s = record s { sessions = alter id f s.sessions }
