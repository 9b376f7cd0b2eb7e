-- ===== src/Pgstore/Keys.antt =====
-- es/pgstore/keyring.go: the key ring over PostgreSQL.
use go_es_light.Base.{
  ℕ, Option, none, some, List, [], ◌∷◌, ◌++◌, Bytes, bytes, Result, ok, err, Error, ◌>>=◌, context,
  is_no_rows, if◌then◌else◌,
}
use go_es_light.KeyRing.{KeyRing}
use go_es_light.Pgstore.{Value, Statement}
use go_es_light.Pgstore.Rows.{scan_bytes, scan_uuid}
use go_es_light.Pgstore.Database.{Database, statement}

abbrev pub select_key : ℕ → Statement
select_key p = statement (bytes "SELECT key FROM pii_keys WHERE pii_id = $1") (Value.uuid p ∷ [])

abbrev pub upsert_key : ℕ → Bytes → Statement
upsert_key p key =
    statement
      (bytes "INSERT INTO pii_keys (pii_id, key) VALUES ($1, $2) "
        ++ bytes "ON CONFLICT (pii_id) DO UPDATE SET key = EXCLUDED.key")
      (Value.uuid p ∷ Value.bytea key ∷ [])

abbrev pub delete_key : ℕ → Statement
delete_key p = statement (bytes "DELETE FROM pii_keys WHERE pii_id = $1") (Value.uuid p ∷ [])

abbrev pub select_subjects : Statement
select_subjects = statement (bytes "SELECT pii_id FROM pii_keys") []

-- if errors.Is(err, sql.ErrNoRows) { return nil, nil }, and else the error in its context
abbrev pub or_nil : Result (List Value) → Result (Option Bytes)
or_nil (ok row) = context "pgstore: keyring get" (scan_bytes row >>= λ key. ok (some key.0))
or_nil (err x) = if is_no_rows x then ok none else err (Error.wrap "pgstore: keyring get" x)

-- The loop over the rows of Subjects
unfoldable pub scan_subjects : List (List Value) → Result (List ℕ)
scan_subjects [] = ok []
scan_subjects (row ∷ rows) = context "pgstore: keyring scan subject" (scan_uuid row) >>= λ p.
    scan_subjects rows >>= λ ps. ok (p.0 ∷ ps)

module _ {D : Type 0} {T : Type 0} (db : Database D T) where
  -- KeyRing.Get, Put, Forget and Subjects
  unfoldable pub get : ℕ → D → Result (Option Bytes)
  get p d = or_nil (db.query_row (select_key p) d)

  unfoldable pub put : ℕ → Bytes → D → Result (Unit {0}) × D
  put p key d = let (r, d') = db.exec (upsert_key p key) d in (context "pgstore: keyring put" r, d')

  unfoldable pub forget : ℕ → D → Result (Unit {0}) × D
  forget p d = let (r, d') = db.exec (delete_key p) d in (context "pgstore: keyring forget" r, d')

  unfoldable pub subjects : D → Result (List ℕ)
  unfolding scan_subjects
  subjects d = context "pgstore: keyring list subjects" (db.query select_subjects d) >>= λ r.
      scan_subjects r.rows >>= λ ps.
      context "pgstore: keyring list subjects" r.rows_err >>= λ _. ok ps

  -- The ring as an es.KeyRing that lists its subjects.
  abbrev pub ring : KeyRing D
  ring = record { get = get; put = put; forget = forget; subjects = some subjects }
