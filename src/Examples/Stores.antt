-- ===== src/Examples/Stores.antt =====
-- es/memstore/eventstore.go and es/tenant_store.go at concrete inputs.
use go_es_light.Base.{
  ℕ, ◌≡◌, ◌≢◌, refl, List, [], ◌∷◌, Bool, none, some, All, lookup, lookup_or, insert, inc64, ok,
  err, Error, arith,
}
use go_es_light.Int.{pos}
use go_es_light.Event.{DomainEvent}
use go_es_light.StoreConfig.{StoreOption, resolve_store_config, with_tenant, apply_options}
use go_es_light.Memstore.{
  Store, new, commit, commit_stamped, stamp, stamp_event, key_of, append_events, append_event, load,
  found, or_else, stream_of, fetch_after, fetch, fetch_by_pii_id, memory_store,
}
use go_es_light.Memstore.Invariant.{IsValid, new-IsValid}
use go_es_light.Memstore.Log.{log_commit}
use go_es_light.Memstore.Commit.{Fits, commit-refines-log}
use go_es_light.Memstore.Concurrency.{
  IsVersioned, Versioned, commit-IsVersioned, second-commit-conflicts,
}
use go_es_light.Memstore.Reads.{log_load, load-eq-log, load-commit_foreign}
use go_es_light.Memstore.Paging.{resume, fetch_after-resume}
use go_es_light.TenantStore.{bind_lookup, bind_stream, tenant_scoped}
use go_es_light.Memstore.Stream.{StreamAll}
use go_es_light.TenantStore.Binding.{own, scoped-eq-own}

abbrev event : ℕ → ℕ → DomainEvent
event id version = record {
  global_id = 0;
  id = id;
  tenant_id = 0;
  aggregate_id = 5;
  aggregate_version = version;
  version = pos 1;
  name = 65 ∷ [];
  payload = id ∷ [];
  metadata = [];
  actor_id = none;
  actor_type = none;
  pii_id = some 9;
  pii_fields = [];
  pii_unrecoverable = Bool.false;
  occurred_at = 0;
}

abbrev mine : List StoreOption
mine = with_tenant 7 ∷ []

abbrev theirs : List StoreOption
theirs = with_tenant 8 ∷ []

abbrev two_events : List DomainEvent
two_events = event 1 1 ∷ event 2 2 ∷ []

mine-Fits : Fits (stamp (resolve_store_config mine) two_events) new
unfolding resolve_store_config apply_options with_tenant new lookup_or lookup insert inc64
mine-Fits = record { batch = (refl, tt); small = omega arith }

abbrev stored : Store
stored = (commit two_events 0 mine new).store

stored-IsValid : IsValid stored
stored-IsValid = (commit-refines-log two_events 0 mine new new-IsValid mine-Fits).1

commit_example :
    (((commit two_events 0 mine new).result, (commit two_events 0 mine new).store.all)
      ≡ log_commit (stamp (resolve_store_config mine) two_events) 0 new.all)
    × IsValid (commit two_events 0 mine new).store
commit_example = commit-refines-log two_events 0 mine new new-IsValid mine-Fits

conflict : (commit two_events 1 mine new).result ≡ err Error.concurrency_conflict
unfolding commit commit_stamped resolve_store_config apply_options with_tenant new lookup_or lookup
    insert inc64
conflict = refl

new-IsVersioned : IsVersioned new.all
unfolding new
new-IsVersioned = λ k. tt

two_events-Versioned : Versioned 0 (stamp (resolve_store_config mine) two_events)
unfolding resolve_store_config apply_options with_tenant
two_events-Versioned = (refl, (refl, tt))

commit-IsVersioned_example : IsVersioned stored.all
commit-IsVersioned_example =
    commit-IsVersioned two_events 0 mine new new-IsValid mine-Fits new-IsVersioned
      two_events-Versioned

abbrev rival : List DomainEvent
rival = event 3 1 ∷ []

rival-Fits : Fits (stamp (resolve_store_config mine) rival) stored
unfolding commit commit_stamped append_events append_event resolve_store_config apply_options
    with_tenant new lookup_or lookup insert inc64
rival-Fits = record { batch = tt; small = omega arith }

same_stream :
    key_of (stamp_event (resolve_store_config mine).tenant_id (event 3 1))
    ≡ key_of (stamp_event (resolve_store_config mine).tenant_id (event 1 1))
unfolding resolve_store_config apply_options with_tenant
same_stream = refl

committed : (commit two_events 0 mine new).result ≡ ok tt
unfolding commit commit_stamped resolve_store_config apply_options with_tenant new lookup_or lookup
    insert inc64
committed = refl

second-commit-conflicts_example :
    (commit rival 0 mine stored).result ≡ err Error.concurrency_conflict
second-commit-conflicts_example =
    second-commit-conflicts (event 1 1) (event 3 1) (event 2 2 ∷ []) [] 0 mine new new-IsValid
      new-IsVersioned mine-Fits rival-Fits two_events-Versioned same_stream committed

load-eq-log_example :
    load 5 mine stored
    ≡ found Error.aggregate_not_found (log_load (resolve_store_config mine).tenant_id 5 stored.all)
load-eq-log_example = load-eq-log 5 mine stored stored-IsValid

loaded : load 5 mine stored ≡ ok stored.all
unfolding load found or_else stream_of commit commit_stamped append_events append_event
    resolve_store_config apply_options with_tenant new lookup_or lookup insert inc64
loaded = refl

tenant_seven : (resolve_store_config mine).tenant_id ≡ some 7
unfolding resolve_store_config apply_options with_tenant
tenant_seven = refl

theirs-Fits : Fits (stamp (resolve_store_config theirs) two_events) stored
unfolding commit commit_stamped append_events append_event resolve_store_config apply_options
    with_tenant new lookup_or lookup insert inc64
theirs-Fits = record { batch = (refl, tt); small = omega arith }

theirs-IsForeign :
    All
      (λ e. (e.tenant_id ≢ 7) × (e.tenant_id ≢ 0))
      (stamp (resolve_store_config theirs) two_events)
unfolding resolve_store_config apply_options with_tenant
theirs-IsForeign = (
  (λ h. omega (arith, h), λ h. omega (arith, h)),
  ((λ h. omega (arith, h), λ h. omega (arith, h)), tt),
)

load-commit_foreign_example :
    load 5 mine (commit two_events 0 theirs stored).store ≡ load 5 mine stored
load-commit_foreign_example =
    load-commit_foreign 7 5 0 mine theirs two_events stored stored-IsValid theirs-Fits
      theirs-IsForeign tenant_seven

abbrev numbered : ℕ → ℕ → DomainEvent
numbered id n = record (event id n) { tenant_id = 7; global_id = n }

first_page : fetch_after 0 (pos 1) mine stored ≡ ok (numbered 1 1 ∷ [])
unfolding fetch_after fetch commit commit_stamped append_events append_event resolve_store_config
    apply_options with_tenant new lookup_or lookup insert inc64
first_page = refl

other_page : fetch_after (resume 0 (numbered 1 1 ∷ [])) (pos 0) mine stored ≡ ok (numbered 2 2 ∷ [])
unfolding fetch_after fetch commit commit_stamped append_events append_event resolve_store_config
    apply_options with_tenant new lookup_or lookup insert inc64
other_page = refl

fetch_after-resume_example :
    fetch_after 0 (pos 0) mine stored ≡ ok (numbered 1 1 ∷ numbered 2 2 ∷ [])
fetch_after-resume_example =
    fetch_after-resume 0 (pos 1) mine stored (numbered 1 1 ∷ []) (numbered 2 2 ∷ []) stored-IsValid
      first_page other_page

scoped-eq-own_example :
    ((tenant_scoped 7 memory_store).commit two_events 0 theirs new
      ≡ commit two_events 0 (own 7) new)
    × ((tenant_scoped 7 memory_store).load 5 theirs new ≡ load 5 (own 7) new)
    × ((tenant_scoped 7 memory_store).fetch_after 0 (pos 0) theirs new
        ≡ fetch_after 0 (pos 0) (own 7) new)
    × (bind_lookup 7 memory_store.fetch_by_pii_id 9 theirs new ≡ fetch_by_pii_id 9 (own 7) new)
    × (bind_stream 7 (StreamAll 2 new) theirs ≡ StreamAll 2 new (own 7))
scoped-eq-own_example = scoped-eq-own 7 theirs new two_events 0 5 0 9 2 (pos 0)
