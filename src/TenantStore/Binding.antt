-- ===== src/TenantStore/Binding.antt =====
-- What a caller passes to a TenantScopedStore (es/tenant_store.go) has no effect on its tenant.
use go_es_light.Base.{ℕ, ◌≡◌, ap, sym, ◌∙◌, some, List, [], ◌∷◌}
use go_es_light.Int.{ℤ}
use go_es_light.Event.{DomainEvent}
use go_es_light.StoreConfig.{StoreOption, with_tenant, resolve_store_config, resolve-last}
use go_es_light.Memstore.{Store, memory_store, load, commit, fetch_after, fetch_by_pii_id}
use go_es_light.TenantStore.{bind, bind_lookup, bind_stream, tenant_scoped}
use go_es_light.Memstore.Stream.{Reach, stream_all, StreamAll}

-- Whatever options a caller passes, a tenant of its own or all tenants included, the bound tenant
-- is the one that the call resolves to.
tenant-bind :
    (tenant : ℕ) (opts : List StoreOption)
    → (resolve_store_config (bind tenant opts)).tenant_id ≡ some tenant
unfolding bind with_tenant
tenant-bind tenant opts = ap (λ c. c.tenant_id) (resolve-last opts (with_tenant tenant))

-- The options of a call that names the tenant and nothing else.
abbrev pub own : ℕ → List StoreOption
own tenant = with_tenant tenant ∷ []

same_tenant :
    (tenant : ℕ) (opts : List StoreOption)
    → (resolve_store_config (bind tenant opts)).tenant_id
      ≡ (resolve_store_config (own tenant)).tenant_id
unfolding bind
same_tenant tenant opts = tenant-bind tenant opts ∙ sym (tenant-bind tenant [])

-- The in-memory store behind a TenantScopedStore answers every call as it answers the same call
-- with the bound tenant for its only option, and a StreamAll comes to the same states.
pub scoped-eq-own :
    (tenant : ℕ) (opts : List StoreOption) (s : Store) (events : List DomainEvent)
    (expected id last p ch : ℕ) (limit : ℤ)
    → let scoped = tenant_scoped tenant memory_store in
      (scoped.commit events expected opts s ≡ commit events expected (own tenant) s)
      × (scoped.load id opts s ≡ load id (own tenant) s)
      × (scoped.fetch_after last limit opts s ≡ fetch_after last limit (own tenant) s)
      × (bind_lookup tenant memory_store.fetch_by_pii_id p opts s
          ≡ fetch_by_pii_id p (own tenant) s)
      × (bind_stream tenant (StreamAll ch s) opts ≡ StreamAll ch s (own tenant))
unfolding commit load fetch_after fetch_by_pii_id
scoped-eq-own tenant opts s events expected id last p ch limit =
    let same = same_tenant tenant opts in
    (rw same, rw same, rw same, rw same, ap (λ o. Reach o ch (stream_all o ch s)) same)
