-- ===== src/Subject.antt =====
-- es/pii_lookup.go and es/dsar.go: the export of everything the log holds about one subject.
pub mod Grouping
pub mod Document
use go_es_light.Base.{
  ℕ, zero, suc, ◌≡◌, Bool, ◌&&◌, true, Option, none, some, List, [], ◌∷◌, ◌++◌, map, length, ◌==◌,
  Eq, nat_eq, ◌↔◌, nat_beq_iff, Map, lookup, insert, Bytes, Result, ◌>>=◌, ok, err, arith,
}
use go_es_light.Int.{ℤ}
use go_es_light.Event.{DomainEvent}
use go_es_light.StoreConfig.{StoreOption}

-- [2]uuid.UUID: tenant and aggregate
abbrev pub GroupKey : Type 0
GroupKey = ℕ × ℕ

abbrev pub pair_beq : GroupKey → GroupKey → Bool
pair_beq a b = (a.0 == b.0) && (a.1 == b.1)

pub pair_beq_iff : (a b : GroupKey) → (pair_beq a b ≡ true) ↔ (a ≡ b)
pair_beq_iff (a, b) (c, d) = ground (arith, nat_beq_iff a c, nat_beq_iff b d)

instance abbrev pub pair_eq : Eq GroupKey
pair_eq = record { beq = pair_beq; beq_iff = pair_beq_iff }

-- type AggregateHistory struct
pub record AggregateHistory : Type 0 where
  pub tenant_id : ℕ
  pub aggregate_id : ℕ
  pub events : List DomainEvent

-- type SubjectExport struct
pub record SubjectExport : Type 0 where
  pub pii_id : ℕ
  pub aggregates : List AggregateHistory

-- The variables of Export's loop: firstSeen and export.Aggregates.
pub record Groups : Type 0 where
  pub first_seen : Map GroupKey ℕ
  pub aggregates : List AggregateHistory

abbrev pub group_key : DomainEvent → GroupKey
group_key e = (e.tenant_id, e.aggregate_id)

-- h.Events = append(h.Events, ev)
abbrev pub add_event : DomainEvent → AggregateHistory → AggregateHistory
add_event e h = record h { events = h.events ++ e ∷ [] }

-- Aggregates[idx].Events = append(Aggregates[idx].Events, ev). The code would panic past the end.
unfoldable pub add_at : ℕ → DomainEvent → List AggregateHistory → List AggregateHistory
add_at i e [] = []
add_at zero e (h ∷ hs) = add_event e h ∷ hs
add_at (suc i) e (h ∷ hs) = h ∷ add_at i e hs

-- if !ok { idx = len(export.Aggregates); ... }, and the append behind it
unfoldable pub placed : Option ℕ → DomainEvent → Groups → Groups
unfolding add_at
placed (some idx) e g = record g { aggregates = add_at idx e g.aggregates }
placed none e g = record {
  first_seen = insert (group_key e) (length g.aggregates) g.first_seen;
  aggregates = add_at (length g.aggregates) e (
      g.aggregates
      ++ record { tenant_id = e.tenant_id; aggregate_id = e.aggregate_id; events = [] } ∷ []);
}

-- What the loop starts from.
abbrev pub no_groups : Groups
no_groups = record { first_seen = []; aggregates = [] }

-- The loop of Export
unfoldable pub group_events : List DomainEvent → Groups → Groups
unfolding placed
group_events [] g = g
group_events (e ∷ es) g = group_events es (placed (lookup (group_key e) g.first_seen) e g)

-- What is marshalled: an actor, an event, an aggregate, and the whole document.
pub record DsarActorDoc : Type 0 where
  pub id : ℕ
  pub actor_type : Bytes

pub record DsarEventDoc : Type 0 where
  pub id : ℕ
  pub name : Bytes
  pub version : ℤ
  pub aggregate_version : ℕ
  pub occurred_at : ℕ
  pub actor : Option DsarActorDoc
  pub metadata : Bytes
  pub pii_unrecoverable : Bool
  pub payload : Bytes

pub record DsarAggregateDoc : Type 0 where
  pub tenant_id : ℕ
  pub aggregate_id : ℕ
  pub events : List DsarEventDoc

pub record DsarResponseDoc : Type 0 where
  pub pii_id : ℕ
  pub generated_at : ℕ
  pub aggregates : List DsarAggregateDoc

abbrev pub actor_doc : Option ℕ → Option Bytes → Option DsarActorDoc
actor_doc none t = none
actor_doc (some a) none = some (record { id = a; actor_type = [] })
actor_doc (some a) (some t) = some (record { id = a; actor_type = t })

-- if len(ev.Metadata) > 0 { docEvent.Metadata = ev.Metadata }: a nil slice is the empty one.
unfoldable pub event_doc : DomainEvent → DsarEventDoc
event_doc e = record {
  id = e.id;
  name = e.name;
  version = e.version;
  aggregate_version = e.aggregate_version;
  occurred_at = e.occurred_at;
  actor = actor_doc e.actor_id e.actor_type;
  metadata = e.metadata;
  pii_unrecoverable = e.pii_unrecoverable;
  payload = e.payload;
}

unfoldable pub aggregate_doc : AggregateHistory → DsarAggregateDoc
unfolding event_doc
aggregate_doc h = record {
  tenant_id = h.tenant_id;
  aggregate_id = h.aggregate_id;
  events = map event_doc h.events;
}

-- The document that SubjectExport.MarshalJSON builds; now is time.Now().UTC().
unfoldable pub document : ℕ → SubjectExport → DsarResponseDoc
unfolding aggregate_doc
document now x = record {
  pii_id = x.pii_id;
  generated_at = now;
  aggregates = map aggregate_doc x.aggregates;
}

module _ {S : Type 0} (fetch_by_pii_id : ℕ → List StoreOption → S → Result (List DomainEvent)) where
  -- SubjectExporter.Export over a PiiLookup
  unfoldable pub export : ℕ → List StoreOption → S → Result SubjectExport
  unfolding group_events
  export p opts s = fetch_by_pii_id p opts s >>= λ events.
      ok (record { pii_id = p; aggregates = (group_events events no_groups).aggregates })

  -- SubjectExporter.ExportJSON: json.MarshalIndent writes what MarshalJSON gives, indented.
  unfoldable pub export_json :
      (DsarResponseDoc → Result Bytes)
      → (Bytes → Result Bytes)
      → ℕ
      → ℕ
      → List StoreOption
      → S
      → Result Bytes
  unfolding export document
  export_json marshal indent now p opts s =
      export p opts s >>= λ x. marshal (document now x) >>= indent
