-- ===== src/Pgstore/Transaction.antt =====
-- Store.Commit of es/pgstore/eventstore.go: one transaction on the database.
pub mod Table
pub mod Log
use go_es_light.Base.{
  String, ℕ, Bool, true, false, Option, none, some, List, [], ◌∷◌, ◌++◌, ◌==◌, nat_eq, map, Bytes,
  bytes, Result, ok, err, Error, ◌>>=◌, context, if◌then◌else◌,
}
use go_es_light.Event.{DomainEvent}
use go_es_light.StoreConfig.{StoreConfig, StoreOption, resolve_store_config, Committed}
use go_es_light.Pgstore.{Value, Store, Statement}
use go_es_light.Pgstore.Queries.{version_query, insert_query, insert_values, check_tracking}
use go_es_light.Pgstore.Rows.{scan_bigint}
use go_es_light.Pgstore.Rollback.{with_rollback, rollback_result, rollback_state}
use go_es_light.Pgstore.Database.{Database, statement}

-- The stamping of the events with the tenant
abbrev pub stamp_event : Option ℕ → DomainEvent → DomainEvent
stamp_event none e = e
stamp_event (some t) e = if e.tenant_id == 0 then record e { tenant_id = t } else e

-- TenantID.String() and aggregateID.String()
abbrev pub IdText : Type 0
IdText = ℕ → Bytes

-- The switch over the tenant: set_config, if it is called
abbrev pub tenant_context : IdText → StoreConfig → Option Statement
tenant_context id_text cfg = elim cfg.tenant_id [
  | some t ↦ some (
      statement (bytes "SELECT set_config('app.tenant_id', $1, true)")
        (Value.string (id_text t) ∷ []))
  | none ↦
      if cfg.all_tenants
      then some (statement (bytes "SELECT set_config('app.tenant_id', '', true)") [])
      else none
]

abbrev pub lock_statement : IdText → ℕ → Statement
lock_statement id_text id =
    statement (bytes "SELECT pg_advisory_xact_lock(hashtext($1))") (Value.string (id_text id) ∷ [])

-- Where the body of Commit stands when it returns: its error, the transaction, whether tx.Commit was
-- called, the database, and the events, which it writes to.
pub record Outcome (D : Type 0) (T : Type 0) : Type 0 where
  pub result : Result (Unit {0})
  pub tx : T
  pub done : Bool
  pub database : D
  pub events : List DomainEvent

abbrev pub scan_one : List Value → Result ℕ
scan_one row = scan_bigint row >>= λ n. ok n.0

-- What the loop of inserts leaves: its error, the events, and the transaction.
abbrev pub Inserted : Type 0 → Type 0
Inserted T = Result (Unit {0}) × List DomainEvent × T

-- One round of the loop, on what its Scan and its QueryRowContext gave; `rest` is the loop from then
-- on. Behind an error the events are as they were.
abbrev pub insert_scanned :
    {T : Type 0} → DomainEvent → List DomainEvent → (T → Inserted T) → T → Result ℕ → Inserted T
insert_scanned e es rest t (err x) = (err (Error.wrap "pgstore: insert event" x), e ∷ es, t)
insert_scanned e es rest t (ok g) =
    let (result, es', t') = rest t in (result, record e { global_id = g } ∷ es', t')

abbrev pub insert_round :
    {T : Type 0}
    → DomainEvent
    → List DomainEvent
    → (T → Inserted T)
    → Result (List Value) × T
    → Inserted T
insert_round e es rest (row, t) = insert_scanned e es rest t (row >>= scan_one)

module _ {D : Type 0} {T : Type 0} (db : Database D T) (s : Store) where
  -- for _, e := range events { ... }, with the inserts
  unfoldable pub insert_events : List DomainEvent → T → Inserted T
  insert_events [] t = (ok tt, [], t)
  insert_events (e ∷ es) t =
      insert_round e es (insert_events es)
        (db.tx_query_row (statement (insert_query s) (insert_values s e)) t)

  abbrev pub failed : Error → T → D → List DomainEvent → Outcome D T
  failed x t d es = record { result = err x; tx = t; done = false; database = d; events = es }

  -- tx.Commit()
  abbrev pub committed : T → List DomainEvent → Result (Unit {0}) × D → Outcome D T
  committed t es (r, d) = record {
    result = context "pgstore: commit tx" r;
    tx = t;
    done = true;
    database = d;
    events = es;
  }

  abbrev pub inserted : D → Inserted T → Outcome D T
  inserted d (err x, es, t) = failed x t d es
  inserted d (ok _, es, t) = committed t es (db.tx_commit t d)

  -- if currentVersion != expectedVersion { return es.ErrConcurrencyConflict }
  abbrev pub version_checked : ℕ → List DomainEvent → D → T → Result ℕ → Outcome D T
  version_checked expected es d t (err x) =
      failed (Error.wrap "pgstore: read current version" x) t d es
  version_checked expected es d t (ok version) =
      if version == expected
      then inserted d (insert_events es t)
      else failed Error.concurrency_conflict t d es

  abbrev pub read_version : ℕ → List DomainEvent → D → Result (List Value) × T → Outcome D T
  read_version expected es d (row, t) = version_checked expected es d t (row >>= scan_one)

  abbrev pub locked :
      StoreConfig → ℕ → ℕ → List DomainEvent → D → Result (Unit {0}) × T → Outcome D T
  locked cfg id expected es d (err x, t) = failed (Error.wrap "pgstore: advisory lock" x) t d es
  locked cfg id expected es d (ok _, t) =
      read_version expected es d (db.tx_query_row (version_query cfg id) t)

  abbrev pub context_message : Option ℕ → String
  context_message none = "pgstore: clear tenant context"
  context_message (some t) = "pgstore: set tenant context"

  abbrev pub set_context : Option Statement → T → Result (Unit {0}) × T
  set_context none t = (ok tt, t)
  set_context (some q) t = db.tx_exec q t

  abbrev pub context_set :
      IdText → StoreConfig → ℕ → ℕ → List DomainEvent → D → Result (Unit {0}) × T → Outcome D T
  context_set id_text cfg id expected es d (err x, t) =
      failed (Error.wrap (context_message cfg.tenant_id) x) t d es
  context_set id_text cfg id expected es d (ok _, t) =
      locked cfg id expected es d (db.tx_exec (lock_statement id_text id) t)

  -- The deferred function
  abbrev pub deferred : Outcome D T → Committed D
  deferred o =
      let (result, d) = db.tx_rollback o.tx o.database in
      record {
        result = with_rollback "pgstore: rollback" (rollback_result o.done result) o.result;
        store = rollback_state o.done o.database d;
        events = o.events;
      }

  abbrev pub in_transaction :
      IdText → StoreConfig → ℕ → ℕ → List DomainEvent → D → Result T → Committed D
  in_transaction id_text cfg id expected es d (err x) = record {
    result = err (Error.wrap "pgstore: begin tx" x);
    store = d;
    events = es;
  }
  in_transaction id_text cfg id expected es d (ok t) =
      deferred
        (context_set id_text cfg id expected es d (set_context (tenant_context id_text cfg) t))

  abbrev pub tracking_checked :
      IdText → StoreConfig → ℕ → ℕ → List DomainEvent → D → Result (Unit {0}) → Committed D
  tracking_checked id_text cfg id expected es d (err x) = record {
    result = err x;
    store = d;
    events = es;
  }
  tracking_checked id_text cfg id expected es d (ok _) =
      in_transaction id_text cfg id expected es d (db.begin_tx d)

  -- Store.Commit
  unfoldable pub commit : IdText → List DomainEvent → ℕ → List StoreOption → D → Committed D
  unfolding insert_events
  commit id_text [] expected opts d = record { result = ok tt; store = d; events = [] }
  commit id_text (e ∷ es) expected opts d =
      let cfg = resolve_store_config opts in
      let stamped = map (stamp_event cfg.tenant_id) (e ∷ es) in
      tracking_checked id_text cfg e.aggregate_id expected stamped d (check_tracking s stamped)
