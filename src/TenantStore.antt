-- ===== src/TenantStore.antt =====
-- es/tenant_store.go: a store whose every call is bound to one tenant.
pub mod Binding
use go_es_light.Base.{ℕ, Option, none, some, List, [], ◌∷◌, ◌++◌, Result, ok, err, Error}
use go_es_light.Int.{ℤ}
use go_es_light.Event.{DomainEvent}
use go_es_light.StoreConfig.{StoreOption, with_tenant, EventStore, Committed}

-- TenantScopedStore.withTenant
unfoldable pub bind : ℕ → List StoreOption → List StoreOption
bind tenant opts = opts ++ with_tenant tenant ∷ []

-- An implementation's FetchByPiiID, with the options bound.
abbrev pub bind_lookup :
    {T : Type 0}
    → ℕ
    → Option (ℕ → List StoreOption → T → Result (List DomainEvent))
    → ℕ
    → List StoreOption
    → T
    → Result (List DomainEvent)
bind_lookup tenant none p opts t = err Error.pii_lookup_unsupported
bind_lookup tenant (some lookup) p opts t = lookup p (bind tenant opts) t

-- An implementation's StreamAll, with the options bound; X is what it gives for its options.
abbrev pub bind_stream {ℓ} : {X : Type ℓ} → ℕ → (List StoreOption → X) → List StoreOption → X
bind_stream tenant stream opts = stream (bind tenant opts)

-- NewTenantScopedStore, with Commit, Load, FetchAfter and FetchByPiiID
abbrev pub tenant_scoped : {T : Type 0} → ℕ → EventStore T → EventStore T
tenant_scoped tenant store = record {
  commit = λ events expected opts t. store.commit events expected (bind tenant opts) t;
  load = λ id opts t. store.load id (bind tenant opts) t;
  fetch_after = λ last limit opts t. store.fetch_after last limit (bind tenant opts) t;
  fetch_by_pii_id = some (bind_lookup tenant store.fetch_by_pii_id);
}
