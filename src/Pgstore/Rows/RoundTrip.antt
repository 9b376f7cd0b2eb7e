-- ===== src/Pgstore/Rows/RoundTrip.antt =====
-- Commit's columns against those of the reads (es/pgstore/eventstore.go): what a row keeps of an event.
use go_es_light.Base.{
  ℕ, ◌≡◌, refl, Bool, true, false, Option, none, some, List, [], ◌∷◌, map, Map, lookup, get_or,
  list_eq, nat_eq, if◌then◌else◌, Bytes, bytes, Result, ok, err, Error, ◌>>=◌,
}
use go_es_light.Event.{DomainEvent}
use go_es_light.Pgstore.{Value, Store}
use go_es_light.Pgstore.Queries.{
  columns, insert_columns, insert_values, null_uuid, null_string, null_raw_message, check_tracking,
  check_piis, carries_actor, carries_pii,
}
use go_es_light.Pgstore.Rows.{scan_event, scan_null_uuid, scan_null_string, raw_message}

-- INSERT INTO events (columns) VALUES (values): each value under the name of its column.
abbrev pub zip : List Bytes → List Value → Map Bytes Value
zip (c ∷ cs) (v ∷ vs) = (c, v) ∷ zip cs vs
zip _ _ = []

-- SELECT columns: a column that the row does not set is NULL.
abbrev pub select : List Bytes → Map Bytes Value → List Value
select cs row = map (λ c. get_or Value.null (lookup c row)) cs

-- What a JSONB and a TIMESTAMPTZ column keep of a value is PostgreSQL's: a JSONB document is written
-- in a normal form, and a time is rounded to microseconds.
module _ (jsonb : Bytes → Bytes) (timestamptz : ℕ → ℕ) where
  abbrev pub kept : Value → Value
  kept (Value.bytea b) = Value.bytea (jsonb b)
  kept (Value.timestamp t) = Value.timestamp (timestamptz t)
  kept Value.null = Value.null
  kept (Value.uuid id) = Value.uuid id
  kept (Value.bigint n) = Value.bigint n
  kept (Value.integer n) = Value.integer n
  kept (Value.string s) = Value.string s
  kept (Value.boolean b) = Value.boolean b

  -- The row of an event, with the global_id that its insert returned.
  abbrev pub row_of : Store → ℕ → DomainEvent → Map Bytes Value
  row_of s g e =
      (bytes "global_id", Value.bigint g) ∷ zip (insert_columns s) (map kept (insert_values s e))

  abbrev pub kept_json : Bytes → Bytes
  kept_json [] = []
  kept_json (b ∷ bs) = jsonb (b ∷ bs)

  abbrev pub kept_event : ℕ → DomainEvent → DomainEvent
  kept_event g e = record e {
    global_id = g;
    payload = jsonb e.payload;
    metadata = kept_json e.metadata;
    pii_fields = kept_json e.pii_fields;
    pii_unrecoverable = false;
    occurred_at = timestamptz e.occurred_at;
  }

  abbrev json_or_null : Bytes → Option Bytes
  json_or_null [] = none
  json_or_null (b ∷ bs) = some (jsonb (b ∷ bs))

  raw_json_or_null : (m : Bytes) → raw_message (json_or_null m) ≡ kept_json m
  raw_json_or_null [] = refl
  raw_json_or_null (b ∷ bs) = refl

  scan_json :
      (m : Bytes) (row : List Value)
      → scan_null_string (kept (null_raw_message m) ∷ row) ≡ ok (json_or_null m, row)
  unfolding null_raw_message
  scan_json [] row = refl
  scan_json (b ∷ bs) row = refl

  scan_id :
      (o : Option ℕ) (row : List Value) → scan_null_uuid (kept (null_uuid o) ∷ row) ≡ ok (o, row)
  unfolding null_uuid
  scan_id none row = refl
  scan_id (some id) row = refl

  scan_text :
      (o : Option Bytes) (row : List Value)
      → scan_null_string (kept (null_string o) ∷ row) ≡ ok (o, row)
  unfolding null_string
  scan_text none row = refl
  scan_text (some s) row = refl

  if-eq-ok :
      (x : Error) (b : Bool) (r : Result (Unit {0}))
      → (if b then err x else r) ≡ ok tt
      → (b ≡ false) × (r ≡ ok tt)
  if-eq-ok x true r h = cc
  if-eq-ok x false r h = (refl, h)

  then-eq-ok :
      (x : Error) (b : Bool) (r : Result (Unit {0}))
      → ((if b then err x else ok tt) >>= λ (u : Unit {0}). r) ≡ ok tt
      → (b ≡ false) × (r ≡ ok tt)
  then-eq-ok x true r h = cc
  then-eq-ok x false r h = (refl, h)

  no_actor :
      (id : Option ℕ) (kind : Option Bytes)
      → carries_actor id kind ≡ false
      → (id ≡ none) × (kind ≡ none)
  no_actor none none h = (refl, refl)
  no_actor none (some k) h = cc
  no_actor (some i) kind h = cc

  no_pii :
      (id : Option ℕ) (fields : Bytes) → carries_pii id fields ≡ false → (id ≡ none) × (fields ≡ [])
  no_pii none [] h = (refl, refl)
  no_pii none (b ∷ bs) h = cc
  no_pii (some i) fields h = cc

  scan_row_of :
      (g : ℕ) (e : DomainEvent) (actor pii : Bool)
      → check_tracking (record { actor_tracking = actor; pii_tracking = pii }) (e ∷ []) ≡ ok tt
      → scan_event
          (record { actor_tracking = actor; pii_tracking = pii })
          (select
            (columns (record { actor_tracking = actor; pii_tracking = pii }))
            (row_of (record { actor_tracking = actor; pii_tracking = pii }) g e))
        ≡ ok (kept_event g e)
  unfolding scan_event columns insert_columns insert_values lookup check_tracking
  scan_row_of g e true true h =
      rw
        (
          scan_json e.metadata,
          scan_id e.actor_id,
          scan_text e.actor_type,
          scan_id e.pii_id,
          scan_json e.pii_fields,
          raw_json_or_null e.metadata,
          raw_json_or_null e.pii_fields,
        )
        refl
  scan_row_of g e true false h =
      let (id, fields) =
        no_pii e.pii_id e.pii_fields (if-eq-ok _ (carries_pii e.pii_id e.pii_fields) (ok tt) h).0 in
      rw
        (
          scan_json e.metadata,
          scan_id e.actor_id,
          scan_text e.actor_type,
          raw_json_or_null e.metadata,
          id,
          fields,
        )
        refl
  scan_row_of g e false true h =
      let (free, _) = then-eq-ok _ (carries_actor e.actor_id e.actor_type) (ok tt) h in
      let (id, kind) = no_actor e.actor_id e.actor_type free in
      rw
        (
          scan_json e.metadata,
          scan_id e.pii_id,
          scan_json e.pii_fields,
          raw_json_or_null e.metadata,
          raw_json_or_null e.pii_fields,
          id,
          kind,
        )
        refl
  scan_row_of g e false false h =
      let (free, rest) =
        then-eq-ok _ (carries_actor e.actor_id e.actor_type) (check_piis (e ∷ [])) h in
      let (id, kind) = no_actor e.actor_id e.actor_type free in
      let (pii, fields) =
        no_pii e.pii_id e.pii_fields
          (if-eq-ok _ (carries_pii e.pii_id e.pii_fields) (ok tt) rest).0 in
      rw (scan_json e.metadata, raw_json_or_null e.metadata, id, kind, pii, fields) refl

-- A row that Commit's INSERT wrote for an event, read with the columns of the SELECTs, scans to that
-- event under the global_id it was given, whatever the store tracks, if the event passed Commit's
-- check of what is tracked. Of the JSON fields and of the time it has what PostgreSQL keeps, a field
-- without bytes stays so, and it is not marked as unrecoverable.
pub scan_event-row_of :
    (jsonb : Bytes → Bytes) (timestamptz : ℕ → ℕ) (s : Store) (g : ℕ) (e : DomainEvent)
    → check_tracking s (e ∷ []) ≡ ok tt
    → scan_event s (select (columns s) (row_of jsonb timestamptz s g e))
      ≡ ok (kept_event jsonb timestamptz g e)
scan_event-row_of jsonb timestamptz s g e h =
    scan_row_of jsonb timestamptz g e s.actor_tracking s.pii_tracking h
