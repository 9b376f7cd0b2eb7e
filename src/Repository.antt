-- ===== src/Repository.antt =====
-- es/repository.go: loading and saving aggregates over any event store.
pub mod RoundTrip
use go_es_light.Base.{ℕ, List, [], ◌∷◌, length, sub64, Result, ok, err, Error}
use go_es_light.Event.{DomainEvent}
use go_es_light.StoreConfig.{StoreOption, EventStore, Committed}
use go_es_light.Json.{Codec}
use go_es_light.Aggregate.{Aggregate, Applier, Registry, set_id, clear_events, load_from_history}

abbrev replayed : {S : Type 0} → Result (Unit {0}) × Aggregate S → Result (Aggregate S)
replayed (ok _, a) = ok a
replayed (err x, a) = err x

module _ {S E T : Type 0} (c : Codec E) (apply : Applier S E) (registry : Registry E)
    (new_aggregate : Aggregate S) (store : EventStore T) where
  abbrev loaded : ℕ → Result (List DomainEvent) → Result (Aggregate S)
  loaded id (err x) = err x
  loaded id (ok []) = err Error.aggregate_not_found
  loaded id (ok (e ∷ es)) =
      replayed (load_from_history c apply registry (e ∷ es) (set_id id new_aggregate))

  -- Repository.Load
  unfoldable pub load : ℕ → List StoreOption → T → Result (Aggregate S)
  load id opts t = loaded id (store.load id opts t)

  -- What Save leaves: its error, the aggregate, whose buffer holds the events that Commit wrote to
  -- unless it was cleared, and the store.
  abbrev pub saved :
      Aggregate S → Result (Unit {0}) → Committed T → Result (Unit {0}) × Aggregate S × T
  saved a (err x) r =
      (err x, record a { base = record (a.base) { uncommitted = r.events } }, r.store)
  saved a (ok _) r = (ok tt, clear_events a, r.store)

  abbrev pub save_events :
      List DomainEvent → Aggregate S → List StoreOption → T → Result (Unit {0}) × Aggregate S × T
  save_events [] a opts t = (ok tt, a, t)
  save_events (e ∷ es) a opts t =
      let r = store.commit (e ∷ es) (sub64 a.base.version (length (e ∷ es))) opts t in
      saved a r.result r

  -- Repository.Save
  unfoldable pub save : Aggregate S → List StoreOption → T → Result (Unit {0}) × Aggregate S × T
  save a opts t = save_events a.base.uncommitted a opts t
