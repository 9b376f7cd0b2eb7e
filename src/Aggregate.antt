-- ===== src/Aggregate.antt =====
-- es/aggregate.go and es/registry.go: recording events on an aggregate, and replaying them.
pub mod Buffer
pub mod Replay
use go_es_light.Base.{
  ℕ, Bool, Option, none, some, List, [], ◌∷◌, ◌++◌, Map, lookup, insert, list_eq, nat_eq, inc64,
  dec64, Bytes, bytes, Result, ok, err, Error, context,
}
use go_es_light.Int.{ℤ, pos}
use go_es_light.Event.{DomainEvent}
use go_es_light.Json.{Json, Codec}

-- type BaseAggregate struct
pub record BaseAggregate : Type 0 where
  pub id : ℕ
  pub version : ℕ
  pub uncommitted : List DomainEvent

-- A concrete aggregate: the embedded BaseAggregate, and the fields that its Apply works on.
pub record Aggregate (S : Type 0) : Type 0 where
  pub base : BaseAggregate
  pub state : S

abbrev pub zero_base : BaseAggregate
zero_base = record { id = 0; version = 0; uncommitted = [] }

module _ {S : Type 0} where
  -- SetID, SetVersion, ClearEvents
  abbrev pub set_id : ℕ → Aggregate S → Aggregate S
  set_id i a = record a { base = record (a.base) { id = i } }

  abbrev pub set_version : ℕ → Aggregate S → Aggregate S
  set_version v a = record a { base = record (a.base) { version = v } }

  abbrev pub clear_events : Aggregate S → Aggregate S
  clear_events a = record a { base = record (a.base) { uncommitted = [] } }

-- interface Applier: the error, and the fields as Apply left them.
abbrev pub Applier : Type 0 → Type 0 → Type 0
Applier S E = E → S → Result (Unit {0}) × S

-- type registry struct: a factory returns the same zero value each time.
abbrev pub Registry : Type 0 → Type 0
Registry E = Map Bytes E

unfoldable pub register : {E : Type 0} → Bytes → E → Registry E → Registry E
register name zero_value r = insert name zero_value r

unfoldable pub factory : {E : Type 0} → Bytes → Registry E → Option E
factory name r = lookup name r

-- type RecordOption func(*DomainEvent)
abbrev pub RecordOption : Type 0
RecordOption = DomainEvent → DomainEvent

unfoldable pub with_event_version : ℤ → RecordOption
with_event_version v e = record e { version = v }

unfoldable pub with_occurred_at : ℕ → RecordOption
with_occurred_at t e = record e { occurred_at = t }

unfoldable pub with_event_id : ℕ → RecordOption
with_event_id i e = record e { id = i }

unfoldable pub with_actor : ℕ → Bytes → RecordOption
with_actor i actor_type e = record e { actor_id = some i; actor_type = some actor_type }

unfoldable pub with_pii_id : ℕ → RecordOption
with_pii_id p e = record e { pii_id = some p }

-- for k, v := range fields { merged[k] = v }
unfoldable pub merge : Map Bytes Bytes → Map Bytes Bytes → Map Bytes Bytes
merge [] m = m
merge ((k, v) ∷ fields) m = merge fields (insert k v m)

abbrev ok_or_empty : Result (Map Bytes Bytes) → Map Bytes Bytes
ok_or_empty (ok m) = m
ok_or_empty (err _) = []

-- The metadata that is there already; an undecodable one counts as none.
abbrev pub existing : Json → Bytes → Map Bytes Bytes
existing j [] = []
existing j (b ∷ bs) = ok_or_empty (j.decode_object (b ∷ bs))

abbrev set_metadata : DomainEvent → Result Bytes → DomainEvent
set_metadata e (ok b) = record e { metadata = b }
set_metadata e (err _) = e

unfoldable pub with_metadata : Json → Map Bytes Bytes → RecordOption
unfolding merge
with_metadata j fields e = set_metadata e (j.encode_object (merge fields (existing j e.metadata)))

unfoldable pub apply_record_options : List RecordOption → DomainEvent → DomainEvent
apply_record_options [] e = e
apply_record_options (opt ∷ opts) e = apply_record_options opts (opt e)

-- What a call of RecordThat draws from uuid.New() and time.Now().
pub record Fresh : Type 0 where
  pub uuid : ℕ
  pub now : ℕ

module _ {S E : Type 0} (c : Codec E) (apply : Applier S E) where
  abbrev envelope : Fresh → Aggregate S → E → Bytes → DomainEvent
  envelope f a event payload = record {
    global_id = 0;
    id = f.uuid;
    tenant_id = 0;
    aggregate_id = a.base.id;
    aggregate_version = a.base.version;
    version = pos 1;
    name = c.event_name event;
    payload = payload;
    metadata = [];
    actor_id = none;
    actor_type = none;
    pii_id = none;
    pii_fields = [];
    pii_unrecoverable = Bool.false;
    occurred_at = f.now;
  }

  abbrev buffer : DomainEvent → Aggregate S → Aggregate S
  buffer e a = record a { base = record (a.base) { uncommitted = a.base.uncommitted ++ e ∷ [] } }

  -- RecordThat from json.Marshal on
  unfoldable pub record_payload :
      Fresh → List RecordOption → E → Aggregate S → Result Bytes → Result (Unit {0}) × Aggregate S
  record_payload f opts event a (err x) =
      (err (Error.wrap "es: marshal payload" x), set_version (dec64 a.base.version) a)
  record_payload f opts event a (ok payload) =
      (ok tt, buffer (apply_record_options opts (envelope f a event payload)) a)

  -- RecordThat from the result of ar.Apply on
  unfoldable pub record_applied :
      Fresh
      → List RecordOption
      → E
      → Aggregate S
      → Result (Unit {0}) × S
      → Result (Unit {0}) × Aggregate S
  unfolding record_payload
  record_applied f opts event a (err x, s) =
      (err x, set_version (dec64 a.base.version) (record a { state = s }))
  record_applied f opts event a (ok _, s) =
      record_payload f opts event (record a { state = s }) (c.marshal event)

  -- BaseAggregate.RecordThat
  unfoldable pub record_that :
      Fresh → List RecordOption → E → Aggregate S → Result (Unit {0}) × Aggregate S
  unfolding record_applied
  record_that f opts event a =
      record_applied f opts event (set_version (inc64 a.base.version) a) (apply event a.state)

  -- The factory's instance, with the payload unmarshalled into it.
  abbrev decode_with : Option E → DomainEvent → Result E
  decode_with none e = err (Error.text "es: no factory registered for event")
  decode_with (some zero_value) e =
      context "es: unmarshal payload" (c.unmarshal e.payload zero_value)

  unfoldable pub decode_event : Registry E → DomainEvent → Result E
  unfolding factory
  decode_event registry e = decode_with (factory e.name registry) e

  abbrev pub replay_applied :
      DomainEvent → Aggregate S → Result (Unit {0}) × S → Result (Unit {0}) × Aggregate S
  replay_applied e a (err x, s) = (err (Error.wrap "es: replay" x), record a { state = s })
  replay_applied e a (ok _, s) = (ok tt, set_version e.aggregate_version (record a { state = s }))

  abbrev pub replay_decoded : DomainEvent → Aggregate S → Result E → Result (Unit {0}) × Aggregate S
  replay_decoded e a (err x) = (err x, a)
  replay_decoded e a (ok event) = replay_applied e a (apply event a.state)

  -- One round of LoadFromHistory.
  unfoldable pub replay_event :
      Registry E → DomainEvent → Aggregate S → Result (Unit {0}) × Aggregate S
  replay_event registry e a = replay_decoded e a (decode_event registry e)

  -- LoadFromHistory
  unfoldable pub load_from_history :
      Registry E → List DomainEvent → Aggregate S → Result (Unit {0}) × Aggregate S
  load_from_history registry [] a = (ok tt, a)
  load_from_history registry (e ∷ es) a =
      let (r, a') = replay_event registry e a in
      elim r [ ok _ ↦ load_from_history registry es a' | err x ↦ (err x, a') ]
