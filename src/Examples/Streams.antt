-- ===== src/Examples/Streams.antt =====
-- Streams and subject exports at concrete inputs.
use go_es_light.Base.{
  ℕ, ◌≡◌, refl, false, none, some, List, [], ◌∷◌, map, filter, All, length, ◌==◌, nat_eq, lookup,
  insert, Bytes, bytes, lookup_or, inc64, suc, zero, Result, ok, ◌>>=◌,
}
use go_es_light.Int.{pos}
use go_es_light.Event.{DomainEvent}
use go_es_light.StoreConfig.{resolve_store_config, apply_options}
use go_es_light.Memstore.{Store, found, fetch_by_pii_id}
use go_es_light.Memstore.Stream.{Position, System, stream_all, Reach, sent_backlog, began, logged}
use go_es_light.Memstore.Stream.Delivery.{Delivers, stream_all-Reach-Delivers}
use go_es_light.Subject.{
  SubjectExport, DsarResponseDoc, pair_eq, group_key, group_events, placed, add_at, document,
  export, export_json,
}
use go_es_light.Subject.Grouping.{IsDistinct}
use go_es_light.Subject.Document.{
  IsListed, key_of_history, listing, export-Complete, export_json-eq-document,
}

abbrev event : ℕ → ℕ → ℕ → DomainEvent
event n t a = record {
  global_id = n;
  id = n;
  tenant_id = t;
  aggregate_id = a;
  aggregate_version = 1;
  version = pos 1;
  name = bytes "user.created";
  payload = bytes "{}";
  metadata = [];
  actor_id = some 4;
  actor_type = none;
  pii_id = some 9;
  pii_fields = [];
  pii_unrecoverable = false;
  occurred_at = 1000000000;
}

abbrev of_tenants : Store
of_tenants = record {
  all = event 1 3 5 ∷ event 2 8 5 ∷ event 3 3 6 ∷ [];
  by_aggregate = [];
  by_pii = (9, event 1 3 5 ∷ event 2 8 5 ∷ event 3 3 5 ∷ []) ∷ [];
  next_global_id = 3;
  checkpoints = [];
  subscribers = [];
}

-- The first event of the backlog is received while a Commit appends its event and has yet to send it.
abbrev later_event : DomainEvent
later_event = record (event 0 3 7) { global_id = 4 }

abbrev after_three : System
after_three = record {
  store = record of_tenants {
    all = event 1 3 5 ∷ event 2 8 5 ∷ event 3 3 6 ∷ later_event ∷ [];
    by_aggregate = (record { tenant_id = 3; aggregate_id = 7 }, later_event ∷ []) ∷ [];
    by_pii = (9, event 1 3 5 ∷ event 2 8 5 ∷ event 3 3 5 ∷ later_event ∷ []) ∷ [];
    next_global_id = 4;
    subscribers = (2, []) ∷ [];
  };
  writing = some (record { tenant_id = 3; aggregate_id = 7 }, []);
  publishing = some (later_event, 2 ∷ []);
  position = Position.replaying (event 3 3 6 ∷ []);
  received = event 1 3 5 ∷ [];
}

stream_example : Reach (some 3) 2 (stream_all (some 3) 2 of_tenants) after_three
unfolding stream_all lookup insert lookup_or inc64
stream_example =
    Reach.next
      (Reach.next (Reach.next Reach.here (sent_backlog (event 1 3 5) (event 3 3 6 ∷ []) refl))
        (began (event 0 3 7) [] 0 refl refl))
      (logged (record { tenant_id = 3; aggregate_id = 7 }) (event 0 3 7) [] refl refl)

stream_all-Reach-Delivers_example : Delivers (some 3) 2 after_three
stream_all-Reach-Delivers_example = stream_all-Reach-Delivers (some 3) 2 of_tenants stream_example

-- Two events for two subscribers, one of which is this stream.
abbrev listened : Store
listened = record of_tenants { subscribers = (2, []) ∷ (6, event 3 3 6 ∷ []) ∷ [] }

-- A Commit has sent to one of two subscribers; the other was cancelled with its channel full.
abbrev copies : ℕ → DomainEvent → List DomainEvent
copies zero e = []
copies (suc n) e = e ∷ copies n e

abbrev stuck : List DomainEvent → System
stuck other = record {
  store = record of_tenants { subscribers = (2, copies 64 (event 1 3 5)) ∷ (6, other) ∷ [] };
  writing = some (record { tenant_id = 3; aggregate_id = 7 }, []);
  publishing = some (event 3 3 5, 2 ∷ []);
  position = Position.cancelled;
  received = [];
}

-- What a subject's export finds in the store.
abbrev found_events : List DomainEvent
found_events = event 1 3 5 ∷ event 2 8 5 ∷ event 3 3 5 ∷ []

found_three : fetch_by_pii_id 9 [] of_tenants ≡ ok found_events
unfolding fetch_by_pii_id found lookup_or lookup resolve_store_config apply_options
found_three = refl

export-Complete_example :
    (x : SubjectExport) × (export fetch_by_pii_id 9 [] of_tenants ≡ ok x)
    × (x.pii_id ≡ 9)
    × IsDistinct (map key_of_history x.aggregates)
    × All (λ h. h.events ≡ filter (λ e. group_key e == key_of_history h) found_events) x.aggregates
    × All (λ e. IsListed (map key_of_history x.aggregates) (group_key e)) found_events
export-Complete_example = export-Complete fetch_by_pii_id 9 [] of_tenants found_events found_three

-- A writer of documents that gives the number of their entries.
abbrev count_entries : DsarResponseDoc → Result Bytes
count_entries d = ok (length d.aggregates ∷ [])

export_json-eq-document_example :
    export_json fetch_by_pii_id count_entries ok 77 9 [] of_tenants
    ≡ (fetch_by_pii_id 9 [] of_tenants >>= λ events. count_entries (listing 77 9 events) >>= ok)
export_json-eq-document_example =
    export_json-eq-document fetch_by_pii_id count_entries ok 77 9 [] of_tenants

two_entries : export_json fetch_by_pii_id count_entries ok 77 9 [] of_tenants ≡ ok (2 ∷ [])
unfolding fetch_by_pii_id found lookup_or lookup resolve_store_config apply_options export_json
    export group_events document insert placed add_at
two_entries = refl
