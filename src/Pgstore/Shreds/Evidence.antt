-- ===== src/Pgstore/Shreds/Evidence.antt =====
-- The ledger of es/pgstore/erasure_ledger.go stays a chain that CheckShredChain accepts.
use go_es_light.Base.{
  ℕ, ◌≡◌, refl, ap, sym, ◌∙◌, ◌⊎◌, inl, inr, Bool, true, false, none, List, [], ◌∷◌, ◌++◌, length,
  All, All-append, last?, Bytes, Result, ok, err, Error, is_no_rows, if◌then◌else◌,
}
use mathlib.Core.Path.{subst, ap₂}
use go_es_light.ErasureLedger.{ShredRecord, unix_seconds, check_shred_chain, tail_of, linked}
use go_es_light.Pgstore.{Value}
use go_es_light.Pgstore.Database.{Database}
use go_es_light.Pgstore.Rollback.{
  Leads, Ends, Ends-Leads, with_rollback, rollback_result, rollback_state-eq,
}
use go_es_light.Pgstore.Shreds
use go_es_light.Pgstore.Shreds.{
  lock_shreds, select_tail, insert_shred, select_shreds, copy_hash, tail_scanned, scan_shred,
  scan_shreds, Ended, with_tail, read_tail, appended, committed, stopped, locked, deferred,
  in_transaction, entries,
}
use go_es_light.Pgstore.Shreds.Table.{
  IsSized, copy_hash-sized, Reads, kept, IsShredTable, new_record, check-new_record, last?-IsSized,
  new_record-IsSized, entries-table,
}

-- What holds of the two lists that there may be holds of the one that there is.
Leads-both :
    (P : List ShredRecord → Type 0) (old new l : List ShredRecord) (r : Result (Unit {0}))
    → P old
    → P new
    → Leads ((l ≡ old) ⊎ (l ≡ new)) (l ≡ new) r
    → P l
Leads-both P old new l (err x) hold hnew (inl e) = subst P (sym e) hold
Leads-both P old new l (err x) hold hnew (inr e) = subst P (sym e) hnew
Leads-both P old new l (ok _) hold hnew e = subst P (sym e) hnew

module _ (timestamptz : ℕ → ℕ) (sha : Bytes → Bytes) {D T : Type 0} (db : Database D T)
    (table : D → List ShredRecord) (seen : T → List ShredRecord) (p at origin : ℕ) (d : D)
    (laws : IsShredTable timestamptz db table seen) where
  -- One record more
  abbrev HasGrown : List ShredRecord → Type 0
  HasGrown rs = rs ≡ table d ++ new_record timestamptz sha (table d) p at origin ∷ []

  abbrev EndsWell : Ended D T → Type 0
  EndsWell o =
      Ends ((table o.database ≡ table d) ⊎ HasGrown (table o.database))
        (HasGrown (table o.database)) o.result o.done

  committed-EndsWell :
      (t : T) (r : Result (Unit {0}) × D)
      → seen t ≡ table d ++ new_record timestamptz sha (table d) p at origin ∷ []
      → db.tx_commit t d ≡ r
      → EndsWell (committed sha db t r)
  committed-EndsWell t (err x, d') grown h = elim (laws.refuses t d d' x h) [
    | inl unchanged ↦ inl unchanged
    | inr lost ↦ inr (lost ∙ grown)
  ]
  committed-EndsWell t (ok _, d') grown h = (refl, laws.commits t d d' h ∙ grown)

  appended-EndsWell :
      (r : ShredRecord) (t : T) (q : Result (Unit {0}) × T)
      → kept timestamptz r ≡ new_record timestamptz sha (table d) p at origin
      → seen t ≡ table d
      → db.tx_exec (insert_shred r) t ≡ q
      → EndsWell (appended sha db d q)
  appended-EndsWell r t (err x, t') new start h = inl refl
  appended-EndsWell r t (ok _, t') new start h =
      committed-EndsWell t' (db.tx_commit t' d)
        (laws.inserts r t t' h ∙ ap₂ (λ l x. l ++ x ∷ []) start new) refl

  with_tail-EndsWell :
      (prev : Bytes) (t : T)
      → copy_hash prev ≡ tail_of (last? (table d))
      → seen t ≡ table d
      → EndsWell (with_tail sha db p at origin d t (ok prev))
  with_tail-EndsWell prev t tail start =
      let r = linked sha (copy_hash prev) p at origin in
      appended-EndsWell r t (db.tx_exec (insert_shred r) t)
        (ap (λ h. kept timestamptz (linked sha h p at origin)) tail) start refl

  no_tail :
      (b : Bool) (x : Error) (t : T)
      → (is_no_rows x ≡ false) ⊎ (last? (table d) ≡ none)
      → seen t ≡ table d
      → is_no_rows x ≡ b
      → EndsWell (
          with_tail sha db p at origin d t
            (if b then ok [] else err (Error.wrap "pgstore: erasure ledger: read tail" x)))
  unfolding copy_hash
  no_tail false x t reads start h = inl refl
  no_tail true x t (inl other) start h = absurd (let bad : true ≡ false = sym h ∙ other in cc)
  no_tail true x t (inr empty) start h = with_tail-EndsWell [] t (ap tail_of (sym empty)) start

  read_tail-EndsWell :
      (q : Result (List Value) × T)
      → All IsSized (table d)
      → Reads (last? (table d)) q.0
      → seen q.1 ≡ table d
      → EndsWell (read_tail sha db p at origin d q)
  read_tail-EndsWell (ok row, t) sized (r, known, same) start =
      subst (λ l. EndsWell (read_tail sha db p at origin d (ok l, t))) (sym same)
        (with_tail-EndsWell r.hash t
          (copy_hash-sized r.hash (last?-IsSized (last? (table d)) (table d) r refl known sized).1
            ∙ ap tail_of (sym known))
          start)
  read_tail-EndsWell (err x, t) sized reads start = no_tail (is_no_rows x) x t reads start refl

  locked-EndsWell :
      (q : Result (Unit {0}) × T)
      → All IsSized (table d)
      → seen q.1 ≡ table d
      → EndsWell (locked sha db p at origin d q)
  locked-EndsWell (err x, t) sized start = inl refl
  locked-EndsWell (ok _, t) sized start =
      let (reads, same) = laws.reads t in
      read_tail-EndsWell (db.tx_query_row select_tail t) sized
        (subst (λ l. Reads (last? l) (db.tx_query_row select_tail t).0) start reads) (same ∙ start)

  in_transaction-Leads :
      (r : Result T)
      → db.begin_tx d ≡ r
      → All IsSized (table d)
      → let c = in_transaction sha db p at origin d r in
        Leads ((table c.1 ≡ table d) ⊎ HasGrown (table c.1)) (HasGrown (table c.1)) c.0
  in_transaction-Leads (err x) h sized = inl refl
  in_transaction-Leads (ok t) h sized =
      let o = locked sha db p at origin d (db.tx_exec lock_shreds t) in
      let rb = db.tx_rollback o.tx o.database in
      let result =
        with_rollback "pgstore: erasure ledger: rollback" (rollback_result o.done rb.0) o.result in
      subst (λ l. Leads ((l ≡ table d) ⊎ HasGrown l) (HasGrown l) result)
        (sym (rollback_state-eq table o.done o.database rb.1 (laws.rolls_back o.tx o.database)))
        (Ends-Leads ((table o.database ≡ table d) ⊎ HasGrown (table o.database))
          (HasGrown (table o.database)) "pgstore: erasure ledger: rollback" rb.0 o.result o.done
          (locked-EndsWell (db.tx_exec lock_shreds t) sized (laws.locks t ∙ laws.begins d t h)))

-- Append and Entries over a database that keeps the table of erasures and the second of the time
-- given. If the chain of the table checks, it checks after an Append too, whatever Append returns: the
-- table then has one record more, of the subject and the event given, or, only with an error, it is as
-- it was; and Entries, if it does not fail, gives the records of the table. Hashes have 32 bytes.
pub append-KeepsChain :
    (timestamptz : ℕ → ℕ) (sha : Bytes → Bytes) {D T : Type 0} (db : Database D T)
    (table : D → List ShredRecord) (seen : T → List ShredRecord) (p at origin : ℕ) (d : D)
    → IsShredTable timestamptz db table seen
    → ((b : Bytes) → length (sha b) ≡ 32)
    → All IsSized (table d)
    → unix_seconds (timestamptz at) ≡ unix_seconds at
    → check_shred_chain sha (table d) ≡ ok tt
    → let c = Shreds.append sha db p at origin d in
      let rs = table d ++ new_record timestamptz sha (table d) p at origin ∷ [] in
      Leads ((table c.1 ≡ table d) ⊎ (table c.1 ≡ rs)) (table c.1 ≡ rs) c.0
      × (check_shred_chain sha (table c.1) ≡ ok tt)
      × (((x : Error) × (entries sha db c.1 ≡ err x)) ⊎ (entries sha db c.1 ≡ ok (table c.1)))
unfolding Shreds.append
append-KeepsChain timestamptz sha db table seen p at origin d laws digest sized same valid =
    let c = Shreds.append sha db p at origin d in
    let r = new_record timestamptz sha (table d) p at origin in
    let led =
      in_transaction-Leads timestamptz sha db table seen p at origin d laws (db.begin_tx d) refl
        sized in
    let Fine : List ShredRecord → Type 0 = λ l. (check_shred_chain sha l ≡ ok tt) × All IsSized l in
    let new : Fine (table d ++ r ∷ []) = (
      check-new_record timestamptz sha (table d) p at origin same valid,
      All-append IsSized (table d) (r ∷ []) sized
          (new_record-IsSized timestamptz sha (table d) p at origin digest sized, tt),
    ) in
    let fine =
      Leads-both Fine (table d) (table d ++ r ∷ []) (table c.1) c.0 (valid, sized) new led in
    (led, fine.0, entries-table timestamptz sha db table seen c.1 (table c.1) laws refl fine.1)
