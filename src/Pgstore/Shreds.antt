-- ===== src/Pgstore/Shreds.antt =====
-- es/pgstore/erasure_ledger.go: the erasure ledger over PostgreSQL.
pub mod Table
pub mod Evidence
use go_es_light.Base.{
  String, ℕ, Bool, true, false, Option, none, some, List, [], ◌∷◌, ◌++◌, take, drop, length, Bytes,
  bytes, Result, ok, err, Error, ◌>>=◌, context, is_no_rows, if◌then◌else◌,
}
use go_es_light.ErasureLedger.{ShredRecord, zero_hash, shred_record_hash, linked}
use go_es_light.Pgstore.{Value, Statement}
use go_es_light.Pgstore.Rows.{Rows, scan_uuid, scan_time, scan_bigint, scan_bytes}
use go_es_light.Pgstore.Rollback.{with_rollback, rollback_result, rollback_state}
use go_es_light.Pgstore.Database.{Database, statement}

abbrev pub lock_shreds : Statement
lock_shreds = statement (bytes "SELECT pg_advisory_xact_lock(hashtext('pii_shreds'))") []

abbrev pub select_tail : Statement
select_tail = statement (bytes "SELECT hash FROM pii_shreds ORDER BY id DESC LIMIT 1") []

abbrev pub insert_shred : ShredRecord → Statement
insert_shred r =
    statement
      (bytes "INSERT INTO pii_shreds (pii_id, erased_at, origin_global_id, prev_hash, hash) "
        ++ bytes "VALUES ($1, $2, $3, $4, $5)")
      (Value.uuid r.pii_id
        ∷ Value.timestamp r.erased_at
        ∷ Value.bigint r.origin_global_id
        ∷ Value.bytea r.prev_hash
        ∷ Value.bytea r.hash
        ∷ [])

abbrev pub select_shreds : Statement
select_shreds =
    statement
      (bytes
        "SELECT pii_id, erased_at, origin_global_id, prev_hash, hash FROM pii_shreds ORDER BY id ASC")
      []

-- copy(hash[:], b) into a [32]byte of zeros
unfoldable pub copy_hash : Bytes → Bytes
copy_hash b = take 32 (b ++ drop (length b) zero_hash)

-- The tail of the ledger: no row means that prev stays nil.
abbrev pub tail_scanned : Result (List Value) → Result Bytes
tail_scanned (ok row) =
    context "pgstore: erasure ledger: read tail" (scan_bytes row >>= λ h. ok h.0)
tail_scanned (err x) =
    if is_no_rows x then ok [] else err (Error.wrap "pgstore: erasure ledger: read tail" x)

-- rows.Scan of a record
unfoldable pub scan_shred : List Value → Result ShredRecord
unfolding copy_hash
scan_shred row = scan_uuid row >>= λ p. scan_time p.1 >>= λ at. scan_bigint at.1 >>= λ origin.
    scan_bytes origin.1 >>= λ prev. scan_bytes prev.1 >>= λ hash. ok (record {
      pii_id = p.0;
      erased_at = at.0;
      origin_global_id = origin.0;
      prev_hash = copy_hash prev.0;
      hash = copy_hash hash.0;
    })

-- The loop of Entries
unfoldable pub scan_shreds : List (List Value) → Result (List ShredRecord)
scan_shreds [] = ok []
scan_shreds (row ∷ rows) = context "pgstore: erasure ledger: scan" (scan_shred row) >>= λ r.
    scan_shreds rows >>= λ rs. ok (r ∷ rs)

-- Where the body of Append stands when it returns: its error, the transaction, whether tx.Commit was
-- called, and the database.
pub record Ended (D : Type 0) (T : Type 0) : Type 0 where
  pub result : Result (Unit {0})
  pub tx : T
  pub done : Bool
  pub database : D

module _ (sha : Bytes → Bytes) {D : Type 0} {T : Type 0} (db : Database D T) where
  abbrev pub stopped : String → Error → T → D → Ended D T
  stopped m x t d = record { result = err (Error.wrap m x); tx = t; done = false; database = d }

  abbrev pub committed : T → Result (Unit {0}) × D → Ended D T
  committed t (r, d) = record {
    result = context "pgstore: erasure ledger: commit" r;
    tx = t;
    done = true;
    database = d;
  }

  abbrev pub appended : D → Result (Unit {0}) × T → Ended D T
  appended d (err x, t) = stopped "pgstore: erasure ledger: append" x t d
  appended d (ok _, t) = committed t (db.tx_commit t d)

  -- The insert of the record, linked to the tail
  abbrev pub with_tail : ℕ → ℕ → ℕ → D → T → Result Bytes → Ended D T
  with_tail p at origin d t (err x) = record { result = err x; tx = t; done = false; database = d }
  with_tail p at origin d t (ok prev) =
      appended d (db.tx_exec (insert_shred (linked sha (copy_hash prev) p at origin)) t)

  abbrev pub read_tail : ℕ → ℕ → ℕ → D → Result (List Value) × T → Ended D T
  read_tail p at origin d (row, t) = with_tail p at origin d t (tail_scanned row)

  abbrev pub locked : ℕ → ℕ → ℕ → D → Result (Unit {0}) × T → Ended D T
  locked p at origin d (err x, t) = stopped "pgstore: erasure ledger: lock" x t d
  locked p at origin d (ok _, t) = read_tail p at origin d (db.tx_query_row select_tail t)

  -- The deferred function
  abbrev pub deferred : Ended D T → Result (Unit {0}) × D
  deferred o =
      let (result, d) = db.tx_rollback o.tx o.database in
      (
        with_rollback "pgstore: erasure ledger: rollback" (rollback_result o.done result) o.result,
        rollback_state o.done o.database d,
      )

  abbrev pub in_transaction : ℕ → ℕ → ℕ → D → Result T → Result (Unit {0}) × D
  in_transaction p at origin d (err x) = (err (Error.wrap "pgstore: erasure ledger: begin tx" x), d)
  in_transaction p at origin d (ok t) = deferred (locked p at origin d (db.tx_exec lock_shreds t))

  -- ErasureLedger.Append
  unfoldable pub append : ℕ → ℕ → ℕ → D → Result (Unit {0}) × D
  append p at origin d = in_transaction p at origin d (db.begin_tx d)

  -- ErasureLedger.Entries
  unfoldable pub entries : D → Result (List ShredRecord)
  unfolding scan_shreds scan_shred
  entries d = context "pgstore: erasure ledger: list" (db.query select_shreds d) >>= λ r.
      scan_shreds r.rows >>= λ rs. context "pgstore: erasure ledger: list" r.rows_err >>= λ _. ok rs
