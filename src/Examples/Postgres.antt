-- ===== src/Examples/Postgres.antt =====
-- es/pgstore at concrete inputs, over databases that keep their tables as lists.
use go_es_light.Base.{
  ◌∙◌, ℕ, ◌+◌, ◌*◌, ◌/◌, ◌≡◌, refl, ap, sym, Bool, true, false, Option, none, some, List, [], ◌∷◌,
  ◌++◌, map, filter, length, nat_eq, Bytes, bytes, Result, ok, err, Error, ok-injective, is_tx_done,
}
use go_es_light.Int.{pos}
use go_es_light.Event.{DomainEvent}
use go_es_light.StoreConfig.{
  StoreConfig, StoreOption, resolve_store_config, apply_options, with_tenant,
}
use go_es_light.Pgstore.{Value, Store}
use go_es_light.Pgstore.Queries.{
  itoa, columns, insert_values, insert_query, version_query, null_raw_message, check_tracking,
}
use go_es_light.Pgstore.Queries.Parameters.{
  AreNumbered, event_statements, table_statements, statements-AreNumbered,
}
use go_es_light.ErasureLedger.{ShredRecord}
use go_es_light.Pgstore.Rows.{scan_event}
use go_es_light.Pgstore.Rows.RoundTrip.{select, row_of, kept_event, scan_event-row_of}
use go_es_light.Pgstore.Database.{Database}
use go_es_light.Pgstore.Transaction.{commit, stamp_event, insert_events}
use go_es_light.Pgstore.Transaction.Table.{IsTable, max_version, in_scope}
use go_es_light.Pgstore.Transaction.Log.{Refines, commit-Refines}

abbrev event : ℕ → DomainEvent
event id = record {
  global_id = 0;
  id = id;
  tenant_id = 3;
  aggregate_id = 5;
  aggregate_version = id;
  version = pos 1;
  name = bytes "order.placed";
  payload = bytes "{}";
  metadata = bytes "{\"a\":1}";
  actor_id = none;
  actor_type = none;
  pii_id = some 9;
  pii_fields = [];
  pii_unrecoverable = false;
  occurred_at = 1500;
}

abbrev with_pii : Store
with_pii = record { actor_tracking = false; pii_tracking = true }

abbrev for_tenant : StoreConfig
for_tenant = record { tenant_id = some 3; all_tenants = false }

abbrev erasure : ShredRecord
erasure = record { pii_id = 9; erased_at = 1500; origin_global_id = 4; prev_hash = []; hash = [] }

statements-AreNumbered_example :
    AreNumbered (event_statements itoa with_pii for_tenant 5 0 (pos 500) (event 1))
    × AreNumbered (table_statements (bytes "projector") 0 5 (7 ∷ []) erasure)
statements-AreNumbered_example =
    statements-AreNumbered itoa with_pii for_tenant 5 0 (pos 500) (event 1) (bytes "projector")
      (7 ∷ []) erasure

-- JSON documents are kept as they are, times to the microsecond.
abbrev microseconds : ℕ → ℕ
microseconds t = (t + 500) / 1000 * 1000

tracked : check_tracking with_pii (event 1 ∷ []) ≡ ok tt
unfolding check_tracking
tracked = refl

scan_event-row_of_example :
    scan_event with_pii
      (select (columns with_pii) (row_of (λ b. b) microseconds with_pii 7 (event 1)))
    ≡ ok (kept_event (λ b. b) microseconds 7 (event 1))
scan_event-row_of_example = scan_event-row_of (λ b. b) microseconds with_pii 7 (event 1) tracked

-- A database whose state is the table of events: it tells the statements apart by their arguments.
abbrev untracked : Store
untracked = record { actor_tracking = false; pii_tracking = false }

abbrev json_of : Value → Bytes
json_of (Value.bytea b) = b
json_of _ = []

abbrev kept : DomainEvent → DomainEvent
kept e = record e {
  metadata = json_of (null_raw_message e.metadata);
  actor_id = none;
  actor_type = none;
  pii_id = none;
  pii_fields = [];
  pii_unrecoverable = false;
}

abbrev answer_row : List Value → List DomainEvent → Result (List Value) × List DomainEvent
answer_row (Value.uuid id ∷ []) t =
    (ok (Value.bigint (max_version (filter (in_scope none id) t)) ∷ []), t)
answer_row (Value.uuid id ∷ Value.uuid tenant ∷ []) t =
    (ok (Value.bigint (max_version (filter (in_scope (some tenant) id) t)) ∷ []), t)
answer_row
      (Value.uuid id
        ∷ Value.uuid tenant
        ∷ Value.uuid aggregate
        ∷ Value.bigint aggregate_version
        ∷ Value.integer version
        ∷ Value.string name
        ∷ Value.bytea payload
        ∷ metadata
        ∷ Value.timestamp at
        ∷ [])
      t =
    (
      ok (Value.bigint (length t + 1) ∷ []),
      t
          ++ record {
            global_id = length t + 1;
            id = id;
            tenant_id = tenant;
            aggregate_id = aggregate;
            aggregate_version = aggregate_version;
            version = version;
            name = name;
            payload = payload;
            metadata = json_of metadata;
            actor_id = none;
            actor_type = none;
            pii_id = none;
            pii_fields = [];
            pii_unrecoverable = false;
            occurred_at = at;
          }
            ∷ [],
    )
answer_row _ t = (err Error.no_rows, t)

abbrev event_database : Database (List DomainEvent) (List DomainEvent)
event_database = record {
  exec = λ q d. (ok tt, d);
  query = λ q d. ok (record { rows = []; rows_err = ok tt });
  query_row = λ q d. err Error.no_rows;
  begin_tx = λ d. ok d;
  tx_exec = λ q t. (ok tt, t);
  tx_query_row = λ q t. answer_row q.args t;
  tx_commit = λ t d. (ok tt, t);
  tx_rollback = λ t d. (ok tt, d);
}

answered :
    (o : Option ℕ) (b : Bool) (id : ℕ) (t : List DomainEvent)
    → answer_row (version_query (record { tenant_id = o; all_tenants = b }) id).args t
      ≡ (ok (Value.bigint (max_version (filter (in_scope o id) t)) ∷ []), t)
unfolding version_query
answered none b id t = refl
answered (some tenant) b id t = refl

-- What an answer is made of.
parts :
    {t t' : List DomainEvent} {row row' : List Value}
    → ◌≡◌ {A = Result (List Value) × List DomainEvent} (ok row, t) (ok row', t')
    → (row' ≡ row) × (t' ≡ t)
parts h = (sym (ok-injective (ap (λ p. p.0) h)), sym (ap (λ p. p.1) h))

event_database-IsTable : IsTable event_database untracked itoa kept (λ d. d) (λ t. t)
unfolding insert_values null_raw_message
event_database-IsTable = record {
  begins = λ d t h. sym (ok-injective h);
  sets_context = λ cfg q t h. refl;
  locks = λ id t. refl;
  reads_version =
      λ cfg id t t' row h. parts (sym (answered cfg.tenant_id cfg.all_tenants id t) ∙ h);
  inserts = λ e t t' row h. let (same, grown) = parts h in (length t + 1, same, grown);
  commits = λ t d d' h. sym (ap (λ p. p.1) h);
  refuses = λ t d d' x h. absurd (let bad : ok tt ≡ err x = ap (λ p. p.0) h in cc);
  rolls_back = λ t d. refl;
}

abbrev mine : List StoreOption
mine = with_tenant 3 ∷ []

abbrev batch : List DomainEvent
batch =
    record (event 1) { pii_id = none; tenant_id = 0 }
    ∷ record (event 2) { pii_id = none; tenant_id = 0 }
    ∷ []

commit-Refines_example :
    Refines event_database untracked itoa kept
      (λ d. d)
      (λ t. t)
      (resolve_store_config mine).tenant_id
      5
      0
      (map (stamp_event (resolve_store_config mine).tenant_id) batch)
      []
      (commit event_database untracked itoa batch 0 mine []).result
      (commit event_database untracked itoa batch 0 mine []).store
      (commit event_database untracked itoa batch 0 mine []).events
commit-Refines_example =
    commit-Refines event_database untracked itoa kept (λ d. d) (λ t. t)
      (record (event 1) { pii_id = none; tenant_id = 0 })
      (record (event 2) { pii_id = none; tenant_id = 0 } ∷ []) 0 mine [] event_database-IsTable

-- Two events are inserted, and a second Commit that expects version 0 is refused.
committed : (commit event_database untracked itoa batch 0 mine []).result ≡ ok tt
unfolding commit insert_events insert_values insert_query version_query check_tracking
    resolve_store_config apply_options with_tenant null_raw_message is_tx_done
committed = refl

refused :
    (commit event_database untracked itoa batch 0 mine
      (commit event_database untracked itoa batch 0 mine []).store).result
    ≡ err Error.concurrency_conflict
unfolding commit insert_events insert_values insert_query version_query check_tracking
    resolve_store_config apply_options with_tenant null_raw_message is_tx_done
refused = refl
