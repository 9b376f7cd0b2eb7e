-- ===== src/Pgstore/Database.antt =====
-- The DB interface of es/pgstore/db.go, and the methods of the store that are one statement on it.
use go_es_light.Base.{
  ℕ, List, [], ◌∷◌, Bytes, bytes, Result, ok, err, Error, ◌>>=◌, context, is_no_rows, if◌then◌else◌,
  ◌++◌,
}
use go_es_light.Int.{ℤ}
use go_es_light.Event.{DomainEvent}
use go_es_light.StoreConfig.{StoreOption, resolve_store_config}
use go_es_light.Memstore.{found}
use go_es_light.Pgstore.{Value, Store, Statement}
use go_es_light.Pgstore.Queries.{load_query, fetch_after_query, fetch_by_pii_id_query}
use go_es_light.Pgstore.Rows.{Rows, scan_events, scan_bigint}

-- type DB interface, over the state D of a database and the state T of a transaction on it. A
-- statement is its text and its arguments. Scan of a QueryRowContext gets the row or an error. What a
-- statement of a transaction does outside of it, as to a sequence, shows in the database behind its
-- Commit or Rollback.
pub record Database (D : Type 0) (T : Type 0) : Type 0 where
  pub exec : Statement → D → Result (Unit {0}) × D
  pub query : Statement → D → Result Rows
  pub query_row : Statement → D → Result (List Value)
  pub begin_tx : D → Result T
  pub tx_exec : Statement → T → Result (Unit {0}) × T
  pub tx_query_row : Statement → T → Result (List Value) × T
  pub tx_commit : T → D → Result (Unit {0}) × D
  pub tx_rollback : T → D → Result (Unit {0}) × D

abbrev pub statement : Bytes → List Value → Statement
statement text args = record { text = text; args = args }

module _ {D : Type 0} {T : Type 0} (db : Database D T) (s : Store) where
  -- Store.Load
  unfoldable pub load : ℕ → List StoreOption → D → Result (List DomainEvent)
  unfolding found
  load id opts d =
      context "pgstore: load" (db.query (load_query s (resolve_store_config opts) id) d) >>= λ rows.
      scan_events s rows >>= found Error.aggregate_not_found

  -- Store.FetchAfter
  unfoldable pub fetch_after : ℕ → ℤ → List StoreOption → D → Result (List DomainEvent)
  fetch_after last_id limit opts d =
      context "pgstore: fetch after"
        (db.query (fetch_after_query s (resolve_store_config opts) last_id limit) d)
      >>= scan_events s

  -- Store.FetchByPiiID
  unfoldable pub fetch_by_pii_id : ℕ → List StoreOption → D → Result (List DomainEvent)
  unfolding found
  fetch_by_pii_id p opts d =
      if s.pii_tracking
      then (context "pgstore: fetch by pii id"
            (db.query (fetch_by_pii_id_query s (resolve_store_config opts) p) d)
          >>= λ rows. scan_events s rows >>= found Error.subject_not_found)
      else err (Error.text "pgstore: FetchByPiiID needs the Store to be built with WithPiiTracking")

abbrev pub select_checkpoint : Bytes → Statement
select_checkpoint name =
    statement (bytes "SELECT last_global_id FROM checkpoints WHERE name = $1")
      (Value.string name ∷ [])

abbrev pub upsert_checkpoint : Bytes → ℕ → Statement
upsert_checkpoint name last_id =
    statement
      (bytes "INSERT INTO checkpoints (name, last_global_id) VALUES ($1, $2) "
        ++ bytes "ON CONFLICT (name) DO UPDATE SET last_global_id = EXCLUDED.last_global_id")
      (Value.string name ∷ Value.bigint last_id ∷ [])

-- if errors.Is(err, sql.ErrNoRows) { return 0, nil }, and else the error in its context
abbrev pub or_zero : Result (List Value) → Result ℕ
or_zero (ok row) = context "pgstore: get checkpoint" (scan_bigint row >>= λ last. ok last.0)
or_zero (err x) = if is_no_rows x then ok 0 else err (Error.wrap "pgstore: get checkpoint" x)

module _ {D : Type 0} {T : Type 0} (db : Database D T) where
  -- Store.Get and Store.Save of the Checkpointer
  unfoldable pub get : Bytes → D → Result ℕ
  get name d = or_zero (db.query_row (select_checkpoint name) d)

  unfoldable pub save : Bytes → ℕ → D → Result (Unit {0}) × D
  save name last_id d =
      let (result, d') = db.exec (upsert_checkpoint name last_id) d in
      (context "pgstore: save checkpoint" result, d')
