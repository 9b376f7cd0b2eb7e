-- ===== src/Memstore/Reads.antt =====
-- Store.Load and Store.FetchByPiiID of es/memstore/eventstore.go, and the isolation of tenants.
use go_es_light.Base.{
  ℕ, ◌+◌, ◌≡◌, ◌≢◌, refl, true, List, [], ◌∷◌, ◌++◌, ◌⊎◌, inl, inr, Option, none, some, filter,
  filter-append, length, All, All-filter, All-imp, Result, ok, Error, arith, append-nil, ◌∙◌, ap,
  Bool-cases, ◌==◌, nat_eq,
}
use mathlib.Core.Path.{ap₂, subst, sym}
use go_es_light.Event.{DomainEvent}
use go_es_light.StoreConfig.{StoreOption, resolve_store_config, is_visible}
use go_es_light.Memstore.{
  Store, AggregateKey, key_of, found, or_else, stream_of, load, fetch_by_pii_id, commit, stamp,
}
use go_es_light.Memstore.Invariant.{IsValid, in_stream, of_subject}
use go_es_light.Memstore.Log.{numbered_from, log_commit, version_of}
use go_es_light.Memstore.Commit.{Fits, commit-refines-log}

abbrev stream_key : ℕ → ℕ → AggregateKey
stream_key t id = record { tenant_id = t; aggregate_id = id }

-- What Load promises, on the log alone.
abbrev pub log_load : Option ℕ → ℕ → List DomainEvent → List DomainEvent
log_load none id log = filter (in_stream (stream_key 0 id)) log
log_load (some t) id log =
    or_else (filter (in_stream (stream_key t id)) log) (filter (in_stream (stream_key 0 id)) log)

stream_of-log :
    (tenant : Option ℕ) (id : ℕ) (s : Store)
    → IsValid s
    → stream_of tenant id s ≡ log_load tenant id s.all
unfolding stream_of
stream_of-log none id s v = v.streams (stream_key 0 id)
stream_of-log (some t) id s v =
    ap₂ or_else (v.streams (stream_key t id)) (v.streams (stream_key 0 id))

-- Load from a valid store returns the events of the log that belong to the aggregate under the
-- tenant of the call, in the order of their commits; if there are none, those under the global
-- tenant; if there are none of these either, the error that the aggregate was not found.
pub load-eq-log :
    (id : ℕ) (opts : List StoreOption) (s : Store)
    → IsValid s
    → load id opts s
      ≡ found Error.aggregate_not_found (log_load (resolve_store_config opts).tenant_id id s.all)
unfolding load
load-eq-log id opts s v =
    ap (found Error.aggregate_not_found)
      (stream_of-log (resolve_store_config opts).tenant_id id s v)

-- FetchByPiiID from a valid store returns the events of the log that carry the subject's id and
-- that the tenant of the call may see, in the order of their commits, or the error that the
-- subject was not found.
fetch_by_pii_id-eq-log :
    (p : ℕ) (opts : List StoreOption) (s : Store)
    → IsValid s
    → fetch_by_pii_id p opts s
      ≡ found Error.subject_not_found
          (filter (is_visible (resolve_store_config opts).tenant_id) (filter (of_subject p) s.all))
unfolding fetch_by_pii_id
fetch_by_pii_id-eq-log p opts s v =
    ap
      (λ l.
        found Error.subject_not_found (filter (is_visible (resolve_store_config opts).tenant_id) l))
      (v.subjects p)

pub found-eq-ok : (x : Error) (l es : List DomainEvent) → found x l ≡ ok es → l ≡ es
unfolding found
found-eq-ok x [] es h = cc
found-eq-ok x (e ∷ l) es h = cc

abbrev pub Belongs : ℕ → ℕ → DomainEvent → Type 0
Belongs t id e = ((e.tenant_id ≡ t) ⊎ (e.tenant_id ≡ 0)) × (e.aggregate_id ≡ id)

log_load-Belongs :
    (t id : ℕ) (log : List DomainEvent) → All (Belongs t id) (log_load (some t) id log)
unfolding or_else
log_load-Belongs t id log =
    pick (filter (in_stream (stream_key t id)) log) (filter (in_stream (stream_key 0 id)) log)
      (All-filter (in_stream (stream_key t id)) log) (All-filter (in_stream (stream_key 0 id)) log)
  where
    mine :
        (xs : List DomainEvent)
        → All (λ e. in_stream (stream_key t id) e ≡ true) xs
        → All (Belongs t id) xs
    mine xs h =
        All-imp (λ e. in_stream (stream_key t id) e ≡ true) (Belongs t id) xs (λ e p. ground arith)
          h

    global :
        (xs : List DomainEvent)
        → All (λ e. in_stream (stream_key 0 id) e ≡ true) xs
        → All (Belongs t id) xs
    global xs h =
        All-imp (λ e. in_stream (stream_key 0 id) e ≡ true) (Belongs t id) xs (λ e p. ground arith)
          h

    pick :
        (xs ys : List DomainEvent)
        → All (λ e. in_stream (stream_key t id) e ≡ true) xs
        → All (λ e. in_stream (stream_key 0 id) e ≡ true) ys
        → All (Belongs t id) (or_else xs ys)
    pick [] ys hx hy = global ys hy
    pick (x ∷ xs) ys hx hy = mine (x ∷ xs) hx

-- A Load for a tenant that succeeds on a valid store returns only events of the aggregate, of
-- that tenant or of the global one.
pub load-Belongs :
    (t id : ℕ) (opts : List StoreOption) (s : Store) (es : List DomainEvent)
    → IsValid s
    → (resolve_store_config opts).tenant_id ≡ some t
    → load id opts s ≡ ok es
    → All (Belongs t id) es
load-Belongs t id opts s es v scope h =
    let log =
      found-eq-ok Error.aggregate_not_found
        (log_load (resolve_store_config opts).tenant_id id s.all) es
        (sym (load-eq-log id opts s v) ∙ h) in
    subst (All (Belongs t id)) (ap (λ o. log_load o id s.all) (sym scope) ∙ log)
      (log_load-Belongs t id s.all)

-- The batch is of another tenant than t, and not global.
abbrev pub IsForeign : ℕ → List DomainEvent → Type 0
IsForeign t = All (λ e. (e.tenant_id ≢ t) × (e.tenant_id ≢ 0))

numbered-foreign :
    (t id n : ℕ) (es : List DomainEvent)
    → IsForeign t es
    → (filter (in_stream (stream_key t id)) (numbered_from n es) ≡ [])
      × (filter (in_stream (stream_key 0 id)) (numbered_from n es) ≡ [])
numbered-foreign t id n [] h = (refl, refl)
numbered-foreign t id n (e ∷ es) h = ground (arith, numbered-foreign t id (n + 1) es h.1)

log_load-foreign :
    (t id expected : ℕ) (events log : List DomainEvent)
    → IsForeign t events
    → log_load (some t) id (log_commit events expected log).1 ≡ log_load (some t) id log
log_load-foreign t id expected [] log h = refl
log_load-foreign t id expected (e ∷ es) log h =
    let new = numbered_from (length log) (e ∷ es) in
    let none_new = numbered-foreign t id (length log) (e ∷ es) h in
    let mine = filter-append (in_stream (stream_key t id)) log new in
    let global = filter-append (in_stream (stream_key 0 id)) log new in
    elim (Bool-cases (version_of (key_of e) log == expected)) [
      | inl same ↦ rw same (
          ap₂ or_else
            (mine
              ∙ ap (λ l. filter (in_stream (stream_key t id)) log ++ l) none_new.0
              ∙ append-nil _)
            (global
              ∙ ap (λ l. filter (in_stream (stream_key 0 id)) log ++ l) none_new.1
              ∙ append-nil _))
      | inr other ↦ rw other refl
    ]

-- What another tenant commits to a valid store, with whatever result, never changes what a Load
-- for tenant t returns, its errors included. The committed batch lies in one stream, its
-- GlobalIDs fit 64 bits, and none of its events is of tenant t or of the global one.
pub load-commit_foreign :
    (t id expected : ℕ) (opts opts' : List StoreOption) (events : List DomainEvent) (s : Store)
    → IsValid s
    → Fits (stamp (resolve_store_config opts') events) s
    → IsForeign t (stamp (resolve_store_config opts') events)
    → (resolve_store_config opts).tenant_id ≡ some t
    → load id opts (commit events expected opts' s).store ≡ load id opts s
load-commit_foreign t id expected opts opts' events s v fits foreign scope =
    let done = commit-refines-log events expected opts' s v fits in
    let batch = stamp (resolve_store_config opts') events in
    load-eq-log id opts (commit events expected opts' s).store done.1
    ∙ ap (found Error.aggregate_not_found) (
        rw scope (
          ap (λ (r : Result (Unit {0}) × List DomainEvent). log_load (some t) id r.1) done.0
          ∙ log_load-foreign t id expected batch s.all foreign))
    ∙ sym (load-eq-log id opts s v)
