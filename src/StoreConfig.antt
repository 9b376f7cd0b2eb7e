-- ===== src/StoreConfig.antt =====
-- es/store.go: the options of a store call, and the interface of an event store.
use go_es_light.Base.{
  ℕ, ◌≡◌, refl, Bool, true, false, ◌&&◌, not, Option, none, some, List, [], ◌∷◌, ◌++◌, ◌==◌, nat_eq,
  Result,
}
use go_es_light.Int.{ℤ}
use go_es_light.Event.{DomainEvent}

-- GlobalTenantID, the nil UUID.
abbrev pub global_tenant_id : ℕ
global_tenant_id = 0

pub record StoreConfig : Type 0 where
  pub tenant_id : Option ℕ
  pub all_tenants : Bool

-- type StoreOption func(*StoreConfig)
abbrev pub StoreOption : Type 0
StoreOption = StoreConfig → StoreConfig

unfoldable pub with_tenant : ℕ → StoreOption
with_tenant t c = record c { tenant_id = some t }

unfoldable pub with_all_tenants : StoreOption
with_all_tenants c = record c { all_tenants = true }

unfoldable pub apply_options : StoreConfig → List StoreOption → StoreConfig
apply_options c [] = c
apply_options c (opt ∷ opts) = apply_options (opt c) opts

abbrev zero_config : StoreConfig
zero_config = record { tenant_id = none; all_tenants = false }

-- ResolveStoreConfig
unfoldable pub resolve_store_config : List StoreOption → StoreConfig
unfolding apply_options
resolve_store_config opts = apply_options zero_config opts

-- The test by which a read with a tenant in its options skips an event.
abbrev pub is_visible : Option ℕ → DomainEvent → Bool
is_visible none e = true
is_visible (some t) e = not (not (e.tenant_id == t) && not (e.tenant_id == global_tenant_id))

apply_options-append :
    (c : StoreConfig) (xs ys : List StoreOption)
    → apply_options c (xs ++ ys) ≡ apply_options (apply_options c xs) ys
unfolding apply_options
apply_options-append c [] ys = refl
apply_options-append c (x ∷ xs) ys = apply_options-append (x c) xs ys

-- An option that comes last is applied to what the others gave.
pub resolve-last :
    (opts : List StoreOption) (opt : StoreOption)
    → resolve_store_config (opts ++ opt ∷ []) ≡ opt (resolve_store_config opts)
unfolding resolve_store_config apply_options
resolve-last opts opt = apply_options-append zero_config opts (opt ∷ [])

-- What a Commit leaves: its error, the store, and the caller's events, which it writes to.
pub record Committed (S : Type 0) : Type 0 where
  pub result : Result (Unit {0})
  pub store : S
  pub events : List DomainEvent

-- interface EventStore, over the state S of an implementation. StreamAll is not modelled.
pub record EventStore (S : Type 0) : Type 0 where
  pub commit : List DomainEvent → ℕ → List StoreOption → S → Committed S
  pub load : ℕ → List StoreOption → S → Result (List DomainEvent)
  pub fetch_after : ℕ → ℤ → List StoreOption → S → Result (List DomainEvent)
  -- interface PiiLookup: `none` if the implementation has no such method.
  pub fetch_by_pii_id : Option (ℕ → List StoreOption → S → Result (List DomainEvent))
