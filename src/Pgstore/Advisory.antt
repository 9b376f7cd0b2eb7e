-- ===== src/Pgstore/Advisory.antt =====
-- AdvisoryLock of es/pgstore/advisory_lock.go: the leader among the replicas of a worker.
pub mod Exclusion
use go_es_light.Base.{
  String, ℕ, Bool, true, false, Option, none, some, List, [], ◌∷◌, ◌==◌, nat_eq, Bytes, bytes,
  Result, ok, err, Error, ◌>>=◌, context, if◌then◌else◌,
}
use go_es_light.Pgstore.{Value, Statement}
use go_es_light.Pgstore.Database.{statement}
use go_es_light.Pgstore.Rows.{scan_boolean}

-- DB.Conn and the methods of sql.Conn, over the state D of the database and its pool and the
-- connections C. Scan of a QueryRowContext gets the row or an error.
pub record Sessions (D : Type 0) (C : Type 0) : Type 0 where
  pub conn : D → Result C × D
  pub conn_query_row : C → Statement → D → Result (List Value) × D
  pub conn_exec : C → Statement → D → Result (Unit {0}) × D
  pub conn_close : C → D → Result (Unit {0}) × D

-- type AdvisoryLock struct, but for its handle
pub record AdvisoryLock (C : Type 0) : Type 0 where
  pub name : Bytes
  pub conn : Option C

-- What a method returns, the lock behind it, and the database.
pub record Outcome (D C A : Type 0) : Type 0 where
  pub result : Result A
  pub lock : AdvisoryLock C
  pub database : D

-- NewAdvisoryLock
unfoldable pub new_advisory_lock : {C : Type 0} → Bytes → AdvisoryLock C
new_advisory_lock name = record { name = name; conn = none }

abbrev pub try_statement : Bytes → Statement
try_statement name =
    statement (bytes "SELECT pg_try_advisory_lock(hashtext($1))") (Value.string name ∷ [])

abbrev pub unlock_statement : Bytes → Statement
unlock_statement name =
    statement (bytes "SELECT pg_advisory_unlock(hashtext($1))") (Value.string name ∷ [])

-- The error of the query, together with the one of conn.Close.
abbrev not_tried : Error → Result (Unit {0}) → Result Bool
not_tried x (ok _) = err (Error.wrap "pgstore: try advisory lock" x)
not_tried x (err y) =
    err (Error.also (Error.wrap "pgstore: try advisory lock" x) "additionally, close conn failed" y)

-- The deferred function of Release: the first result is the one of conn.Close.
abbrev with_close : Result (Unit {0}) → Result (Unit {0}) → Result (Unit {0})
with_close (ok _) r = r
with_close (err y) (ok _) = err (Error.wrap "pgstore: close conn" y)
with_close (err y) (err e) = err (Error.also e "additionally, close conn failed" y)

module _ {D C : Type 0} (s : Sessions D C) where
  -- What TryAcquire makes of the answer.
  abbrev pub scanned : AdvisoryLock C → C → D → Result Bool → Outcome D C Bool
  scanned l c d (err x) =
      let (closed, d') = s.conn_close c d in
      record { result = not_tried x closed; lock = l; database = d' }
  scanned l c d (ok true) = record {
    result = ok true;
    lock = record l { conn = some c };
    database = d;
  }
  scanned l c d (ok false) =
      let (closed, d') = s.conn_close c d in
      record {
        result = context "pgstore: close conn after failed acquire" closed >>= λ u. ok false;
        lock = l;
        database = d';
      }

  abbrev pub queried : AdvisoryLock C → C → Result (List Value) × D → Outcome D C Bool
  queried l c (r, d) = scanned l c d (r >>= λ row. scan_boolean row >>= λ b. ok b.0)

  abbrev pub connected : AdvisoryLock C → Result C × D → Outcome D C Bool
  connected l (err x, d) = record {
    result = err (Error.wrap "pgstore: acquire conn" x);
    lock = l;
    database = d;
  }
  connected l (ok c, d) = queried l c (s.conn_query_row c (try_statement l.name) d)

  -- AdvisoryLock.TryAcquire
  unfoldable pub try_acquire : AdvisoryLock C → D → Outcome D C Bool
  try_acquire l d = connected l (s.conn d)

  abbrev pub unlocked : AdvisoryLock C → C → Result (Unit {0}) × D → Outcome D C (Unit {0})
  unlocked l c (r, d) =
      let (closed, d') = s.conn_close c d in
      record {
        result = with_close closed (context "pgstore: advisory unlock" r);
        lock = l;
        database = d';
      }

  abbrev pub released : AdvisoryLock C → D → Option C → Outcome D C (Unit {0})
  released l d none = record { result = ok tt; lock = l; database = d }
  released l d (some c) =
      unlocked (record l { conn = none }) c (s.conn_exec c (unlock_statement l.name) d)

  -- AdvisoryLock.Release
  unfoldable pub release : AdvisoryLock C → D → Outcome D C (Unit {0})
  release l d = released l d l.conn

-- The locks of the replicas, by their numbers.
abbrev pub Fleet : Type 0 → Type 0
Fleet C = ℕ → AdvisoryLock C

abbrev pub replaced : {C : Type 0} → ℕ → AdvisoryLock C → Fleet C → Fleet C
replaced i l locks j = if j == i then l else locks j

-- The replicas and the database: in one step a replica calls a method of its lock, from start to end.
pub data Step {D C : Type 0} (s : Sessions D C) (locks : Fleet C) (d : D)
    : Fleet C → D → Type 0 where
  tries :
      (i : ℕ)
      → Step s locks d
          (replaced i (try_acquire s (locks i) d).lock locks)
          (try_acquire s (locks i) d).database
  releases :
      (i : ℕ)
      → Step s locks d
          (replaced i (release s (locks i) d).lock locks)
          (release s (locks i) d).database

pub data Reach {D C : Type 0} (s : Sessions D C) (locks : Fleet C) (d : D)
    : Fleet C → D → Type 0 where
  here : Reach s locks d locks d
  next :
      {locks' locks'' : Fleet C} {d' d'' : D}
      → Reach s locks d locks' d'
      → Step s locks' d' locks'' d''
      → Reach s locks d locks'' d''
