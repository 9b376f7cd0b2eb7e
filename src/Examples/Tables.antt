-- ===== src/Examples/Tables.antt =====
-- The stream and the erasures of es/pgstore at concrete inputs.
use go_es_light.Base.{
  ℕ, zero, suc, length, ◌<◌, ◌⊎◌, ◌+◌, ◌*◌, ◌/◌, ◌≡◌, refl, ap, sym, inr, false, Option, none, some,
  List, [], ◌∷◌, ◌++◌, map, take, All, last?, nat_eq, Bytes, bytes, Result, ok, err, Error,
  ok-injective, arith,
}
use go_es_light.Int.{pos}
use go_es_light.Event.{DomainEvent}
use go_es_light.StoreConfig.{resolve_store_config, apply_options}
use go_es_light.ErasureLedger.{ShredRecord, zero_hash, unix_seconds, check_shred_chain, check_from}
use go_es_light.Pgstore.{Value, Store}
use go_es_light.Pgstore.Queries.{fetch_after_query}
use go_es_light.Pgstore.Rows.{Rows, scan_event}
use go_es_light.Pgstore.Database.{Database}
use go_es_light.Pgstore.Rollback.{Leads}
use go_es_light.Pgstore.Polling.{stream_all}
use go_es_light.Pgstore.Polling.Pages.{after, Ascending}
use go_es_light.Pgstore.Polling.Delivery.{Grows, Answers, Delivers, stream_all-Delivers}
use go_es_light.Pgstore.Shreds
use go_es_light.Pgstore.Shreds.Table.{Reads, IsShredTable, shred_row, new_record}
use go_es_light.Pgstore.Shreds.Evidence.{append-KeepsChain}

abbrev plain : Store
plain = record { actor_tracking = false; pii_tracking = false }

-- The event with the global id g, and its row
abbrev event : ℕ → DomainEvent
event g = record {
  global_id = g;
  id = 40;
  tenant_id = 3;
  aggregate_id = 5;
  aggregate_version = g;
  version = pos 1;
  name = bytes "order.placed";
  payload = bytes "{}";
  metadata = [];
  actor_id = none;
  actor_type = none;
  pii_id = none;
  pii_fields = [];
  pii_unrecoverable = false;
  occurred_at = 1000;
}

abbrev row : DomainEvent → List Value
row e =
    Value.bigint e.global_id
    ∷ Value.uuid e.id
    ∷ Value.uuid e.tenant_id
    ∷ Value.uuid e.aggregate_id
    ∷ Value.bigint e.aggregate_version
    ∷ Value.integer e.version
    ∷ Value.string e.name
    ∷ Value.bytea e.payload
    ∷ Value.null
    ∷ Value.timestamp e.occurred_at
    ∷ []

-- A database whose state is the global ids of its events
abbrev page_rows : List Value → List ℕ → Result Rows
page_rows (Value.bigint last ∷ Value.integer (pos limit) ∷ []) d =
    ok (record { rows = map row (take limit (after last (map event d))); rows_err = ok tt })
page_rows _ d = err Error.no_rows

abbrev id_database : Database (List ℕ) (List ℕ)
id_database = record {
  exec = λ q d. (ok tt, d);
  query = λ q d. page_rows q.args d;
  query_row = λ q d. err Error.no_rows;
  begin_tx = λ d. ok d;
  tx_exec = λ q t. (ok tt, t);
  tx_query_row = λ q t. (err Error.no_rows, t);
  tx_commit = λ t d. (ok tt, t);
  tx_rollback = λ t d. (ok tt, d);
}

events_scan : (d : List ℕ) → All (λ e. scan_event plain (row e) ≡ ok e) (map event d)
unfolding scan_event
events_scan [] = tt
events_scan (g ∷ d) = (refl, events_scan d)

id_database-Answers : Answers id_database plain [] (map event) row
unfolding fetch_after_query resolve_store_config apply_options
id_database-Answers = record {
  answers = λ d last r h good. ap (λ x. x.rows) (sym (ok-injective h));
  scans = events_scan;
}

-- The log has grown between the first call of FetchAfter and the second, within the first drain.
abbrev states : ℕ → List ℕ
states zero = 1 ∷ 2 ∷ []
states (suc n) = 1 ∷ 2 ∷ 4 ∷ []

states-Grows : Grows (λ n. map event (states n))
states-Grows = record { grown = grown; ascending = ascending }
  where
    grown :
        (n : ℕ)
        → (new : List DomainEvent) × (map event (states (suc n)) ≡ map event (states n) ++ new)
    grown zero = (event 4 ∷ [], refl)
    grown (suc n) = ([], refl)

    ascending : (n : ℕ) → Ascending 0 (map event (states n))
    ascending zero = (omega arith, (omega arith, tt))
    ascending (suc n) = (omega arith, (omega arith, (omega arith, tt)))

states-short : (n : ℕ) → length (map event (states n)) < 4
states-short zero = omega arith
states-short (suc n) = omega arith

stream_all-Delivers_example :
    Delivers (λ n. map event (states n)) (stream_all id_database plain [] 4 1 none states)
stream_all-Delivers_example =
    stream_all-Delivers id_database plain [] (map event) row 4 1 none states id_database-Answers
      states-Grows states-short

-- A database whose state is the table of erasures; times are kept to the microsecond.
abbrev microseconds : ℕ → ℕ
microseconds t = (t + 500) / 1000 * 1000

abbrev shred_exec : List Value → List ShredRecord → Result (Unit {0}) × List ShredRecord
shred_exec
      (Value.uuid p
        ∷ Value.timestamp at
        ∷ Value.bigint origin
        ∷ Value.bytea prev
        ∷ Value.bytea hash
        ∷ [])
      t =
    (
      ok tt,
      t
          ++ record {
            pii_id = p;
            erased_at = microseconds at;
            origin_global_id = origin;
            prev_hash = prev;
            hash = hash;
          }
            ∷ [],
    )
shred_exec _ t = (ok tt, t)

abbrev tail_row : Option ShredRecord → Result (List Value)
tail_row none = err Error.no_rows
tail_row (some r) = ok (Value.bytea r.hash ∷ [])

abbrev shred_database : Database (List ShredRecord) (List ShredRecord)
shred_database = record {
  exec = λ q d. (ok tt, d);
  query = λ q d. ok (record { rows = map shred_row d; rows_err = ok tt });
  query_row = λ q d. err Error.no_rows;
  begin_tx = λ d. ok d;
  tx_exec = λ q t. shred_exec q.args t;
  tx_query_row = λ q t. (tail_row (last? t), t);
  tx_commit = λ t d. (ok tt, t);
  tx_rollback = λ t d. (ok tt, d);
}

tail_row-Reads : (o : Option ShredRecord) → Reads o (tail_row o)
tail_row-Reads none = inr refl
tail_row-Reads (some r) = (r, refl, refl)

shred_database-IsShredTable : IsShredTable microseconds shred_database (λ d. d) (λ t. t)
shred_database-IsShredTable = record {
  begins = λ d t h. sym (ok-injective h);
  locks = λ t. refl;
  reads = λ t. (tail_row-Reads (last? t), refl);
  inserts = λ r t t' h. sym (ap (λ p. p.1) h);
  commits = λ t d d' h. sym (ap (λ p. p.1) h);
  refuses = λ t d d' x h. absurd (let bad : ok tt ≡ err x = ap (λ p. p.0) h in cc);
  rolls_back = λ t d. refl;
  lists = λ d r h good. ap (λ x. x.rows) (sym (ok-injective h));
}

-- A digest of 32 bytes, and a time in the middle of a second
abbrev digest : Bytes → Bytes
digest b = zero_hash

same_second : unix_seconds (microseconds 1500000300) ≡ unix_seconds 1500000300
unfolding unix_seconds
same_second = refl

empty_chain : check_shred_chain digest [] ≡ ok tt
unfolding check_shred_chain check_from
empty_chain = refl

append-KeepsChain_example :
    let d = (Shreds.append digest shred_database 9 1500000300 4 []).1 in
    let rs = new_record microseconds digest [] 9 1500000300 4 ∷ [] in
    Leads ((d ≡ []) ⊎ (d ≡ rs)) (d ≡ rs) (Shreds.append digest shred_database 9 1500000300 4 []).0
    × (check_shred_chain digest d ≡ ok tt)
    × (((x : Error) × (Shreds.entries digest shred_database d ≡ err x))
        ⊎ (Shreds.entries digest shred_database d ≡ ok d))
append-KeepsChain_example =
    append-KeepsChain microseconds digest shred_database (λ d. d) (λ t. t) 9 1500000300 4 []
      shred_database-IsShredTable (λ b. refl) tt same_second empty_chain
