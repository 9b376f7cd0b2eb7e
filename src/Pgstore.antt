-- ===== src/Pgstore.antt =====
-- es/pgstore: the event store over PostgreSQL. What the code sends to database/sql is defined here, text by
-- text; the database that answers is a parameter.
pub mod Queries
pub mod Rows
pub mod Database
pub mod Migration
pub mod Rollback
pub mod Transaction
pub mod Polling
pub mod Keys
pub mod Shreds
pub mod Advisory
use go_es_light.Base.{ℕ, Bool, true, false, Option, List, [], ◌∷◌, Bytes, Result}
use go_es_light.Int.{ℤ}

-- A value that goes to the database as an argument, or comes from it in a row.
pub data Value : Type 0 where
  null : Value
  uuid : ℕ → Value
  bigint : ℕ → Value
  integer : ℤ → Value
  string : Bytes → Value
  bytea : Bytes → Value
  timestamp : ℕ → Value
  boolean : Bool → Value

-- type Store struct, but for its handle and its dsn
pub record Store : Type 0 where
  pub actor_tracking : Bool
  pub pii_tracking : Bool

-- type Option func(*Store)
abbrev pub StoreBuildOption : Type 0
StoreBuildOption = Store → Store

unfoldable pub with_actor_tracking : StoreBuildOption
with_actor_tracking s = record s { actor_tracking = true }

unfoldable pub with_pii_tracking : StoreBuildOption
with_pii_tracking s = record s { pii_tracking = true }

unfoldable pub build : Store → List StoreBuildOption → Store
build s [] = s
build s (opt ∷ opts) = build (opt s) opts

-- New
unfoldable pub new : List StoreBuildOption → Store
unfolding build
new opts = build (record { actor_tracking = false; pii_tracking = false }) opts

-- A statement with its arguments.
pub record Statement : Type 0 where
  pub text : Bytes
  pub args : List Value
