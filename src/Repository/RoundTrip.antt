-- ===== src/Repository/RoundTrip.antt =====
-- Repository.Save and Repository.Load of es/repository.go, over the in-memory store.
use go_es_light.Base.{
  ℕ, ◌+◌, ◌≡◌, refl, ap, sym, ◌∙◌, true, List, [], ◌∷◌, ◌++◌, Option, none, some, All, length,
  filter, filter-append, filter-All, sub64, Result, ok, arith, nat_eq, beq_self, map,
}
use mathlib.Core.Path.{ap₂}
use go_es_light.Event.{DomainEvent}
use go_es_light.StoreConfig.{StoreOption, resolve_store_config}
use go_es_light.Json.{Codec}
use go_es_light.Aggregate.{
  Aggregate, Applier, Registry, set_id, decode_event, replay_event, load_from_history,
}
use go_es_light.Aggregate.Replay.{Replays, caught_up, load_from_history-append}
use go_es_light.Memstore
use go_es_light.Memstore.{
  Store, AggregateKey, key_beq, key_eq, key_of, current, memory_store, stamp, stamp_event,
  stream_of, found,
}
use go_es_light.Memstore.Invariant.{IsValid, in_stream}
use go_es_light.Memstore.Log.{numbered_from, log_commit}
use go_es_light.Memstore.Commit.{Fits, commit-refines-log}
use go_es_light.Memstore.Concurrency.{batch_flags}
use go_es_light.Repository.{load, save, loaded, replayed}

-- The tenant of the stream that a save with these options writes to.
abbrev pub tenant_of : Option ℕ → ℕ
tenant_of none = 0
tenant_of (some t) = t

abbrev pub own_key : Option ℕ → ℕ → AggregateKey
own_key tenant id = record { tenant_id = tenant_of tenant; aggregate_id = id }

-- An event as RecordThat builds it for the aggregate.
abbrev pub IsOwn : ℕ → DomainEvent → Type 0
IsOwn id e = (e.aggregate_id ≡ id) × (e.tenant_id ≡ 0)

stamped_key :
    (tenant : Option ℕ) (id : ℕ) (e : DomainEvent)
    → IsOwn id e
    → key_of (stamp_event tenant e) ≡ own_key tenant id
stamped_key none id e h = ground arith
stamped_key (some t) id e h = ground arith

name-stamp : (tenant : Option ℕ) (e : DomainEvent) → (stamp_event tenant e).name ≡ e.name
name-stamp none e = refl
name-stamp (some t) e = ground arith

payload-stamp : (tenant : Option ℕ) (e : DomainEvent) → (stamp_event tenant e).payload ≡ e.payload
payload-stamp none e = refl
payload-stamp (some t) e = ground arith

version-stamp :
    (tenant : Option ℕ) (e : DomainEvent)
    → (stamp_event tenant e).aggregate_version ≡ e.aggregate_version
version-stamp none e = refl
version-stamp (some t) e = ground arith

-- A stream that is not empty is what Load returns.
load_stream :
    (tenant : Option ℕ) (id : ℕ) (opts : List StoreOption) (s : Store)
    → (resolve_store_config opts).tenant_id ≡ tenant
    → (xs : List DomainEvent) (y : DomainEvent) (ys : List DomainEvent)
    → current (own_key tenant id) s ≡ xs ++ y ∷ ys
    → Memstore.load id opts s ≡ ok (xs ++ y ∷ ys)
unfolding Memstore.load Memstore.stream_of Memstore.found Memstore.or_else
load_stream none id opts s scope [] y ys h = rw (scope, h)
load_stream none id opts s scope (x ∷ xs) y ys h = rw (scope, h)
load_stream (some t) id opts s scope [] y ys h = rw (scope, h)
load_stream (some t) id opts s scope (x ∷ xs) y ys h = rw (scope, h)

log_commit_ok :
    (e : DomainEvent) (es : List DomainEvent) (expected : ℕ) (log : List DomainEvent)
    → (log_commit (e ∷ es) expected log).0 ≡ ok tt
    → (log_commit (e ∷ es) expected log).1 ≡ log ++ numbered_from (length log) (e ∷ es)
log_commit_ok e es expected log h = ground arith

module _ {S E : Type 0} (c : Codec E) (apply : Applier S E) (registry : Registry E) where
  -- Replay reads the name, the payload and the version of an event, and nothing that a commit writes.
  replay_event_congr :
      (e e' : DomainEvent) (a : Aggregate S)
      → e'.name ≡ e.name
      → e'.payload ≡ e.payload
      → e'.aggregate_version ≡ e.aggregate_version
      → replay_event c apply registry e' a ≡ replay_event c apply registry e a
  unfolding replay_event decode_event
  replay_event_congr e e' a n p v = ground arith

  replay_event-stamp :
      (tenant : Option ℕ) (n : ℕ) (e : DomainEvent) (a : Aggregate S)
      → replay_event c apply registry (record (stamp_event tenant e) { global_id = n }) a
        ≡ replay_event c apply registry e a
  replay_event-stamp tenant n e a =
      replay_event_congr e (record (stamp_event tenant e) { global_id = n }) a (name-stamp tenant e)
        (payload-stamp tenant e) (version-stamp tenant e)

  load_from_history-stamp :
      (tenant : Option ℕ) (n : ℕ) (es : List DomainEvent) (a : Aggregate S)
      → load_from_history c apply registry (numbered_from n (map (stamp_event tenant) es)) a
        ≡ load_from_history c apply registry es a
  unfolding load_from_history
  load_from_history-stamp tenant n [] a = refl
  load_from_history-stamp tenant n (e ∷ es) a = ground (
    arith,
    replay_event-stamp tenant (n + 1) e a,
    load_from_history-stamp tenant (n + 1) es (replay_event c apply registry e a).1,
  )

module _ (id : ℕ) (opts : List StoreOption) (s : Store) (expected : ℕ) (e : DomainEvent)
    (es : List DomainEvent) (v : IsValid s)
    (fits : Fits (stamp (resolve_store_config opts) (e ∷ es)) s) (own : All (IsOwn id) (e ∷ es))
    (done : (Memstore.commit (e ∷ es) expected opts s).result ≡ ok tt) where
  abbrev tenant : Option ℕ
  tenant = (resolve_store_config opts).tenant_id

  abbrev after_commit : Store
  after_commit = (Memstore.commit (e ∷ es) expected opts s).store

  abbrev new_events : List DomainEvent
  new_events = numbered_from (length s.all) (stamp (resolve_store_config opts) (e ∷ es))

  -- A commit that succeeds extends the stream by the events that it was given.
  current-commit :
      current (own_key tenant id) after_commit ≡ current (own_key tenant id) s ++ new_events
  current-commit =
      let key = own_key tenant id in
      let same = commit-refines-log (e ∷ es) expected opts s v fits in
      let log =
        ap (λ (r : Result (Unit {0}) × List DomainEvent). r.1) same.0
        ∙ log_commit_ok (stamp_event tenant e) (map (stamp_event tenant) es) expected s.all
            (sym (ap (λ (r : Result (Unit {0}) × List DomainEvent). r.0) same.0) ∙ done) in
      let here : in_stream key (stamp_event tenant e) ≡ true =
        ap (λ k. key_beq k key) (stamped_key tenant id e own.0) ∙ beq_self key in
      same.1.streams key
      ∙ ap (filter (in_stream key)) log
      ∙ filter-append (in_stream key) s.all new_events
      ∙ ap₂ ◌++◌ (sym (v.streams key)) (
          filter-All (in_stream key) new_events (
            batch_flags key true (length s.all) (stamp_event tenant e) (map (stamp_event tenant) es)
              fits.batch here))

  -- Load then returns the stream so extended.
  load-commit :
      Memstore.load id opts after_commit ≡ ok (current (own_key tenant id) s ++ new_events)
  load-commit =
      load_stream tenant id opts after_commit refl (current (own_key tenant id) s)
        (record (stamp_event tenant e) { global_id = length s.all + 1 })
        (numbered_from (length s.all + 1) (map (stamp_event tenant) es)) current-commit

module _ {S E : Type 0} (c : Codec E) (apply : Applier S E) (registry : Registry E)
    (new_aggregate : Aggregate S) where
  saved_store :
      (opts : List StoreOption) (a : Aggregate S) (e : DomainEvent) (es : List DomainEvent)
      (s : Store)
      → a.base.uncommitted ≡ e ∷ es
      → (save c apply registry new_aggregate memory_store a opts s).0 ≡ ok tt
      → let r = Memstore.commit (e ∷ es) (sub64 a.base.version (length (e ∷ es))) opts s in
        (r.result ≡ ok tt)
        × ((save c apply registry new_aggregate memory_store a opts s).2 ≡ r.store)
  unfolding save
  saved_store opts a e es s buffer done = ground arith

  loaded_some :
      (id : ℕ) (xs : List DomainEvent) (y : DomainEvent) (ys : List DomainEvent)
      → loaded c apply registry new_aggregate memory_store id (ok (xs ++ y ∷ ys))
        ≡ replayed (load_from_history c apply registry (xs ++ y ∷ ys) (set_id id new_aggregate))
  loaded_some id [] y ys = refl
  loaded_some id (x ∷ xs) y ys = refl

  -- A Save to a valid in-memory store that succeeds, followed by Load, gives back the aggregate
  -- that was saved, at its version. The buffer holds events that RecordThat built; x is what the
  -- stored stream replays to, and the buffer replays on top of it to the aggregate; the GlobalIDs
  -- fit 64 bits.
  pub load-save :
      (opts : List StoreOption) (a x : Aggregate S) (e : DomainEvent) (es : List DomainEvent)
      (s : Store)
      → IsValid s
      → a.base.uncommitted ≡ e ∷ es
      → Fits (stamp (resolve_store_config opts) (e ∷ es)) s
      → All (IsOwn a.base.id) (e ∷ es)
      → load_from_history c apply registry
          (current (own_key (resolve_store_config opts).tenant_id a.base.id) s)
          (set_id a.base.id new_aggregate)
        ≡ (ok tt, x)
      → Replays c apply registry x a
      → (save c apply registry new_aggregate memory_store a opts s).0 ≡ ok tt
      → load c apply registry new_aggregate memory_store a.base.id opts
          (save c apply registry new_aggregate memory_store a opts s).2
        ≡ ok (caught_up c apply registry x a)
  unfolding save load
  load-save opts a x e es s v buffer fits own stored replays done =
      let tenant = (resolve_store_config opts).tenant_id in
      let id = a.base.id in
      let expected = sub64 a.base.version (length (e ∷ es)) in
      let (committed, store) = saved_store opts a e es s buffer done in
      let old = current (own_key tenant id) s in
      let new = numbered_from (length s.all) (stamp (resolve_store_config opts) (e ∷ es)) in
      let fresh = set_id id new_aggregate in
      ap (λ t. loaded c apply registry new_aggregate memory_store id (Memstore.load id opts t))
        store
      ∙ ap (loaded c apply registry new_aggregate memory_store id)
          (load-commit id opts s expected e es v fits own committed)
      ∙ loaded_some id old (record (stamp_event tenant e) { global_id = length s.all + 1 })
          (numbered_from (length s.all + 1) (map (stamp_event tenant) es))
      ∙ ap replayed (
          load_from_history-append c apply registry old new fresh x stored
          ∙ load_from_history-stamp c apply registry tenant (length s.all) (e ∷ es) x
          ∙ rw buffer at replays)
