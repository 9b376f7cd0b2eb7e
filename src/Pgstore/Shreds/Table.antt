-- ===== src/Pgstore/Shreds/Table.antt =====
-- What a database that keeps the table of erasures does with the statements of
-- es/pgstore/erasure_ledger.go, and the record that Append adds.
use go_es_light.Base.{
  ℕ, ◌≡◌, refl, ap, sym, ◌∙◌, ◌⊎◌, false, Option, none, some, List, [], ◌∷◌, ◌++◌, map, take, drop,
  length, take-append_length, All, last?, be_bytes, Bytes, Result, ok, err, Error, is_no_rows, inl,
  inr, context, ◌>>=◌,
}
use mathlib.Core.Path.{subst}
use go_es_light.ErasureLedger.{
  ShredRecord, unix_seconds, zero_hash, hash_input, shred_record_hash, check_shred_chain, tail_of,
  linked, append,
}
use go_es_light.ErasureLedger.Chain.{check-append}
use go_es_light.Pgstore.{Value}
use go_es_light.Pgstore.Database.{Database}
use go_es_light.Pgstore.Rows.{Rows}
use go_es_light.Pgstore.Shreds.{
  lock_shreds, select_tail, insert_shred, select_shreds, copy_hash, scan_shred, scan_shreds,
  entries,
}

-- Hashes have 32 bytes.
abbrev pub IsSized : ShredRecord → Type 0
IsSized r = (length r.prev_hash ≡ 32) × (length r.hash ≡ 32)

pub copy_hash-sized : (b : Bytes) → length b ≡ 32 → copy_hash b ≡ b
unfolding copy_hash
copy_hash-sized b h =
    ap (λ n. take n (b ++ drop (length b) zero_hash)) (sym h)
    ∙ take-append_length b (drop (length b) zero_hash)

abbrev pub shred_row : ShredRecord → List Value
shred_row r =
    Value.uuid r.pii_id
    ∷ Value.timestamp r.erased_at
    ∷ Value.bigint r.origin_global_id
    ∷ Value.bytea r.prev_hash
    ∷ Value.bytea r.hash
    ∷ []

scan_shreds-map : (rs : List ShredRecord) → All IsSized rs → scan_shreds (map shred_row rs) ≡ ok rs
unfolding scan_shreds scan_shred
scan_shreds-map [] h = refl
scan_shreds-map (r ∷ rs) ((p, q), h) =
    rw (copy_hash-sized r.prev_hash p, copy_hash-sized r.hash q, scan_shreds-map rs h) refl

-- What the statement for the tail reads of it: its hash, or that there is none.
abbrev pub Reads : Option ShredRecord → Result (List Value) → Type 0
Reads o (ok row) = (r : ShredRecord) × (o ≡ some r) × (row ≡ Value.bytea r.hash ∷ [])
Reads o (err x) = (is_no_rows x ≡ false) ⊎ (o ≡ none)

module _ (timestamptz : ℕ → ℕ) where
  abbrev pub kept : ShredRecord → ShredRecord
  kept r = record r { erased_at = timestamptz r.erased_at }

  -- The database keeps the table pii_shreds: `table` is what it holds, `seen` what a transaction sees,
  -- and of a time it keeps its `timestamptz`. A tx.Commit that returns an error has
  -- committed nothing, or all with its answer lost.
  pub record IsShredTable {D T : Type 0} (db : Database D T) (table : D → List ShredRecord)
      (seen : T → List ShredRecord) : Type 0 where
    pub begins : (d : D) (t : T) → db.begin_tx d ≡ ok t → seen t ≡ table d
    pub locks : (t : T) → seen (db.tx_exec lock_shreds t).1 ≡ seen t
    pub reads :
        (t : T)
        → Reads (last? (seen t)) (db.tx_query_row select_tail t).0
          × (seen (db.tx_query_row select_tail t).1 ≡ seen t)
    pub inserts :
        (r : ShredRecord) (t t' : T)
        → db.tx_exec (insert_shred r) t ≡ (ok tt, t')
        → seen t' ≡ seen t ++ kept r ∷ []
    pub commits : (t : T) (d d' : D) → db.tx_commit t d ≡ (ok tt, d') → table d' ≡ seen t
    pub refuses :
        (t : T) (d d' : D) (x : Error)
        → db.tx_commit t d ≡ (err x, d')
        → (table d' ≡ table d) ⊎ (table d' ≡ seen t)
    pub rolls_back : (t : T) (d : D) → table (db.tx_rollback t d).1 ≡ table d
    pub lists :
        (d : D) (r : Rows)
        → db.query select_shreds d ≡ ok r
        → r.rows_err ≡ ok tt
        → r.rows ≡ map shred_row (table d)

  module _ (sha : Bytes → Bytes) where
    kept-linked :
        (prev : Bytes) (p at origin : ℕ)
        → unix_seconds (timestamptz at) ≡ unix_seconds at
        → kept (linked sha prev p at origin) ≡ linked sha prev p (timestamptz at) origin
    unfolding shred_record_hash hash_input
    kept-linked prev p at origin h =
        ap
          (λ u. record {
            pii_id = p;
            erased_at = timestamptz at;
            origin_global_id = origin;
            prev_hash = prev;
            hash = sha (prev ++ (be_bytes 16 p ++ (be_bytes 8 u ++ be_bytes 8 origin)));
          })
          (sym h)

    -- The record that Append inserts behind the records rs, as the table keeps it
    abbrev pub new_record : List ShredRecord → ℕ → ℕ → ℕ → ShredRecord
    new_record rs p at origin = kept (linked sha (tail_of (last? rs)) p at origin)

    pub check-new_record :
        (rs : List ShredRecord) (p at origin : ℕ)
        → unix_seconds (timestamptz at) ≡ unix_seconds at
        → check_shred_chain sha rs ≡ ok tt
        → check_shred_chain sha (rs ++ new_record rs p at origin ∷ []) ≡ ok tt
    unfolding append
    check-new_record rs p at origin h valid =
        subst (λ r. check_shred_chain sha (rs ++ r ∷ []) ≡ ok tt)
          (sym (kept-linked (tail_of (last? rs)) p at origin h))
          (check-append sha rs p (timestamptz at) origin valid)

pub last?-IsSized :
    (o : Option ShredRecord) (rs : List ShredRecord) (r : ShredRecord)
    → last? rs ≡ o
    → o ≡ some r
    → All IsSized rs
    → IsSized r
last?-IsSized o [] r h known a = absurd (let bad : none ≡ some r = h ∙ known in cc)
last?-IsSized o (x ∷ []) r h known (a, _) = let same : x ≡ r = cc in subst IsSized same a
last?-IsSized o (x ∷ y ∷ rs) r h known (_, a) = last?-IsSized o (y ∷ rs) r h known a

pub tail_of-sized :
    (o : Option ShredRecord) (rs : List ShredRecord)
    → last? rs ≡ o
    → All IsSized rs
    → length (tail_of o) ≡ 32
tail_of-sized none rs h sized = refl
tail_of-sized (some r) rs h sized = (last?-IsSized (some r) rs r h refl sized).1

pub new_record-IsSized :
    (timestamptz : ℕ → ℕ) (sha : Bytes → Bytes) (rs : List ShredRecord) (p at origin : ℕ)
    → ((b : Bytes) → length (sha b) ≡ 32)
    → All IsSized rs
    → IsSized (new_record timestamptz sha rs p at origin)
unfolding shred_record_hash
new_record-IsSized timestamptz sha rs p at origin digest sized =
    (tail_of-sized (last? rs) rs refl sized, digest (hash_input (tail_of (last? rs)) p at origin))

pub entries-table :
    (timestamptz : ℕ → ℕ) (sha : Bytes → Bytes) {D T : Type 0} (db : Database D T)
    (table : D → List ShredRecord) (seen : T → List ShredRecord) (d : D) (rs : List ShredRecord)
    → IsShredTable timestamptz db table seen
    → table d ≡ rs
    → All IsSized rs
    → ((x : Error) × (entries sha db d ≡ err x)) ⊎ (entries sha db d ≡ ok rs)
unfolding entries
entries-table timestamptz sha db table seen d rs laws known sized =
    queried (db.query select_shreds d) refl
  where
    listed :
        (o : Result (Unit {0})) (r : Result (List ShredRecord))
        → (o ≡ ok tt → r ≡ ok rs)
        → let c = r >>= λ l. context "pgstore: erasure ledger: list" o >>= λ _. ok l in
          ((x : Error) × (c ≡ err x)) ⊎ (c ≡ ok rs)
    listed (err x) (err y) scanned = inl (y, refl)
    listed (err x) (ok l) scanned = inl (Error.wrap "pgstore: erasure ledger: list" x, refl)
    listed (ok _) r scanned = inr (rw (scanned refl) refl)

    queried :
        (q : Result Rows)
        → db.query select_shreds d ≡ q
        → let c = context "pgstore: erasure ledger: list" q >>= λ r. scan_shreds r.rows >>= λ l.
            context "pgstore: erasure ledger: list" r.rows_err >>= λ _. ok l in
          ((x : Error) × (c ≡ err x)) ⊎ (c ≡ ok rs)
    queried (err x) asked = inl (Error.wrap "pgstore: erasure ledger: list" x, refl)
    queried (ok r) asked = listed r.rows_err (scan_shreds r.rows) (λ good.
        ap scan_shreds (laws.lists d r asked good ∙ ap (map shred_row) known)
        ∙ scan_shreds-map rs sized)
