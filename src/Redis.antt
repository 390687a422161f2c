-- ===== src/Redis.antt =====
-- The Redis client (go-redis) as a parameter: the commands that the program sends, on an abstract
-- state of the server and the connection. Nothing is assumed of them here; `Redis/Laws.antt` has
-- the documented behaviour that theorems name, `Redis/Memory.antt` a server that shows it.
pub mod Laws
pub mod Hashes
pub mod Memory
use fluffy_dollop.Base.{Bool, Option, none, some, List, [], ◌∷◌, if◌then◌else◌}
use fluffy_dollop.Base.Int.{ℤ}
use fluffy_dollop.Base.Text.{Text, eq_text}
use fluffy_dollop.Go.Effect.{Io}

abbrev pub Fields : Type 0
Fields = List (Text × Text)

-- A field of a message or a hash.
unfoldable pub field : Text → Fields → Option Text
field name [] = none
field name ((k, v) ∷ rest) = if eq_text k name then some v else field name rest

pub record XMessage : Type 0 where
  pub id : Text
  pub values : Fields

pub record XStream : Type 0 where
  pub stream : Text
  pub messages : List XMessage

pub record XAddArgs : Type 0 where
  pub stream : Text
  pub max_len : ℤ
  pub approx : Bool
  pub id : Text
  pub values : Fields

pub record XReadGroupArgs : Type 0 where
  pub group : Text
  pub consumer : Text
  pub streams : List Text
  pub count : ℤ
  pub block : ℤ

pub record XAutoClaimArgs : Type 0 where
  pub stream : Text
  pub group : Text
  pub consumer : Text
  pub min_idle : ℤ
  pub start : Text
  pub count : ℤ

pub record XPending : Type 0 where
  pub count : ℤ
  pub lower : Text

pub record Redis : Type 1 where
  pub State : Type 0
  -- streams
  pub xadd : XAddArgs → Io State Text
  pub xack : Text → Text → Text → Io State ℤ
  pub xread_group : XReadGroupArgs → Io State (List XStream)
  pub xauto_claim : XAutoClaimArgs → Io State (List XMessage × Text)
  pub xpending : Text → Text → Io State XPending
  pub xlen : Text → Io State ℤ
  pub xrange : Text → Text → Text → Io State (List XMessage)
  pub xdel : Text → Text → Io State ℤ
  pub xgroup_create_mkstream : Text → Text → Text → Io State Text
  -- a pipeline of XADDs and its Exec
  pub xadd_pipeline : List XAddArgs → Io State (List Text)
  -- keys
  pub set_nx : Text → Text → ℤ → Io State Bool
  pub get : Text → Io State Text
  pub expire : Text → ℤ → Io State Bool
  pub del : Text → Io State ℤ
  -- hashes
  pub hset : Text → Fields → Io State ℤ
  pub hget_all : Text → Io State Fields
  pub keys : Text → Io State (List Text)
  pub ping : Io State Text
