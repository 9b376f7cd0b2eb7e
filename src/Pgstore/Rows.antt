-- ===== src/Pgstore/Rows.antt =====
-- scanEvents of es/pgstore/eventstore.go: from the rows of a result to events.
pub mod RoundTrip
use go_es_light.Base.{
  ℕ, Bool, true, false, Option, none, some, List, [], ◌∷◌, Bytes, Result, ok, err, Error, ◌>>=◌,
  context,
}
use go_es_light.Int.{ℤ}
use go_es_light.Event.{DomainEvent}
use go_es_light.Pgstore.{Value, Store}

-- rows.Scan into one destination: what it reads, and the columns behind it.
abbrev pub Scan : Type 0 → Type 0
Scan A = List Value → Result (A × List Value)

abbrev unexpected {ℓ} : {A : Type ℓ} → Result A
unexpected = err (Error.text "sql: Scan error")

abbrev pub scan_uuid : Scan ℕ
scan_uuid (Value.uuid id ∷ row) = ok (id, row)
scan_uuid _ = unexpected

abbrev pub scan_bigint : Scan ℕ
scan_bigint (Value.bigint n ∷ row) = ok (n, row)
scan_bigint _ = unexpected

abbrev pub scan_integer : Scan ℤ
scan_integer (Value.integer n ∷ row) = ok (n, row)
scan_integer _ = unexpected

abbrev pub scan_string : Scan Bytes
scan_string (Value.string s ∷ row) = ok (s, row)
scan_string _ = unexpected

abbrev pub scan_bytes : Scan Bytes
scan_bytes (Value.bytea b ∷ row) = ok (b, row)
scan_bytes _ = unexpected

abbrev pub scan_time : Scan ℕ
scan_time (Value.timestamp t ∷ row) = ok (t, row)
scan_time _ = unexpected

abbrev pub scan_boolean : Scan Bool
scan_boolean (Value.boolean b ∷ row) = ok (b, row)
scan_boolean _ = unexpected

-- uuid.NullUUID and sql.NullString, of a text and of a JSONB column
abbrev pub scan_null_uuid : Scan (Option ℕ)
scan_null_uuid (Value.null ∷ row) = ok (none, row)
scan_null_uuid (Value.uuid id ∷ row) = ok (some id, row)
scan_null_uuid _ = unexpected

abbrev pub scan_null_string : Scan (Option Bytes)
scan_null_string (Value.null ∷ row) = ok (none, row)
scan_null_string (Value.string s ∷ row) = ok (some s, row)
scan_null_string (Value.bytea b ∷ row) = ok (some b, row)
scan_null_string _ = unexpected

-- The destinations that Store's options add; without them they keep their zero values.
abbrev pub scan_actor : Bool → Scan (Option ℕ × Option Bytes)
scan_actor false row = ok ((none, none), row)
scan_actor true row =
    scan_null_uuid row >>= λ id. scan_null_string id.1 >>= λ kind. ok ((id.0, kind.0), kind.1)

abbrev pub scan_pii : Bool → Scan (Option ℕ × Option Bytes)
scan_pii false row = ok ((none, none), row)
scan_pii true row =
    scan_null_uuid row >>= λ id. scan_null_string id.1 >>= λ fields. ok ((id.0, fields.0), fields.1)

-- if x.Valid { e.X = json.RawMessage(x.String) }: a slice that is not assigned is nil.
abbrev pub raw_message : Option Bytes → Bytes
raw_message none = []
raw_message (some b) = b

-- Scan asks for as many destinations as the row has columns.
abbrev last_column : DomainEvent → List Value → Result DomainEvent
last_column e [] = ok e
last_column e (v ∷ row) = unexpected

-- One round of the loop of scanEvents
unfoldable pub scan_event : Store → List Value → Result DomainEvent
scan_event s row = scan_bigint row >>= λ global. scan_uuid global.1 >>= λ id.
    scan_uuid id.1 >>= λ tenant. scan_uuid tenant.1 >>= λ aggregate.
    scan_bigint aggregate.1 >>= λ aggregate_version. scan_integer aggregate_version.1 >>= λ version.
    scan_string version.1 >>= λ name. scan_bytes name.1 >>= λ payload.
    scan_null_string payload.1 >>= λ metadata. scan_actor s.actor_tracking metadata.1 >>= λ actor.
    scan_pii s.pii_tracking actor.1 >>= λ pii. scan_time pii.1 >>= λ time.
    last_column
      (record {
        global_id = global.0;
        id = id.0;
        tenant_id = tenant.0;
        aggregate_id = aggregate.0;
        aggregate_version = aggregate_version.0;
        version = version.0;
        name = name.0;
        payload = payload.0;
        metadata = raw_message metadata.0;
        actor_id = actor.0.0;
        actor_type = actor.0.1;
        pii_id = pii.0.0;
        pii_fields = raw_message pii.0.1;
        pii_unrecoverable = false;
        occurred_at = time.0;
      })
      time.1

-- The rows that a query gives, and rows.Err() behind them.
pub record Rows : Type 0 where
  pub rows : List (List Value)
  pub rows_err : Result (Unit {0})

unfoldable pub scan_rows : Store → List (List Value) → Result (List DomainEvent)
scan_rows s [] = ok []
scan_rows s (row ∷ rows) =
    context "pgstore: scan event" (scan_event s row) >>= λ e. scan_rows s rows >>= λ es. ok (e ∷ es)

-- Store.scanEvents, without the events that the code returns together with an error of the rows.
unfoldable pub scan_events : Store → Rows → Result (List DomainEvent)
unfolding scan_event scan_rows
scan_events s r = scan_rows s r.rows >>= λ es. r.rows_err >>= λ _. ok es
