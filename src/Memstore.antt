-- ===== src/Memstore.antt =====
-- es/memstore/eventstore.go: the in-memory event store, with the lock held for each operation.
pub mod Invariant
pub mod Log
pub mod Commit
pub mod Concurrency
pub mod Reads
pub mod Paging
pub mod Stream
use go_es_light.Base.{
  ℕ, ◌+◌, ◌≡◌, Bool, true, false, ◌&&◌, not, Option, none, some, List, [], ◌∷◌, ◌++◌, map, last?,
  filter, ltb, leb, ◌==◌, Eq, if◌then◌else◌, Map, insert, lookup_or, inc64, Bytes, Result, ok, err,
  Error, ◌↔◌, arith, nat_beq_iff, nat_eq, list_eq,
}
use go_es_light.Int.{ℤ, pos, negsuc}
use go_es_light.Event.{DomainEvent}
use go_es_light.StoreConfig.{
  StoreConfig, StoreOption, resolve_store_config, is_visible, global_tenant_id, Committed,
  EventStore,
}

pub record AggregateKey : Type 0 where
  pub tenant_id : ℕ
  pub aggregate_id : ℕ

abbrev pub key_beq : AggregateKey → AggregateKey → Bool
key_beq a b = (a.tenant_id == b.tenant_id) && (a.aggregate_id == b.aggregate_id)

pub key_beq_iff : (a b : AggregateKey) → (key_beq a b ≡ true) ↔ (a ≡ b)
key_beq_iff a b = ground (arith, nat_beq_iff a.tenant_id b.tenant_id)

instance abbrev pub key_eq : Eq AggregateKey
key_eq = record { beq = key_beq; beq_iff = key_beq_iff }

-- type Store struct. A subscriber is a channel: the events sent to it and not yet received.
pub record Store : Type 0 where
  pub all : List DomainEvent
  pub by_aggregate : Map AggregateKey (List DomainEvent)
  pub by_pii : Map ℕ (List DomainEvent)
  pub next_global_id : ℕ
  pub checkpoints : Map Bytes ℕ
  pub subscribers : Map ℕ (List DomainEvent)

unfoldable pub new : Store
new = record {
  all = [];
  by_aggregate = [];
  by_pii = [];
  next_global_id = 0;
  checkpoints = [];
  subscribers = [];
}

-- if e.TenantID == uuid.Nil { e.TenantID = *cfg.TenantID }
abbrev pub stamp_event : Option ℕ → DomainEvent → DomainEvent
stamp_event none e = e
stamp_event (some t) e = if e.tenant_id == 0 then record e { tenant_id = t } else e

abbrev pub stamp : StoreConfig → List DomainEvent → List DomainEvent
stamp cfg = map (stamp_event cfg.tenant_id)

abbrev pub key_of : DomainEvent → AggregateKey
key_of e = record { tenant_id = e.tenant_id; aggregate_id = e.aggregate_id }

-- The version of the last event of a stream, 0 if there is none.
abbrev pub last_version : List DomainEvent → ℕ
last_version l = elim (last? l) [ none ↦ 0 | some e ↦ e.aggregate_version ]

-- if e.PiiID != nil { s.byPii[*e.PiiID] = append(s.byPii[*e.PiiID], e) }
abbrev pub index_pii : Option ℕ → DomainEvent → Map ℕ (List DomainEvent) → Map ℕ (List DomainEvent)
index_pii none e m = m
index_pii (some p) e m = insert p (lookup_or [] p m ++ e ∷ []) m

-- for ch := range s.subscribers { ch <- e }
abbrev pub publish : DomainEvent → Map ℕ (List DomainEvent) → Map ℕ (List DomainEvent)
publish e = map (λ sub. (sub.0, sub.1 ++ e ∷ []))

-- One round of Commit's loop, for an event that has its GlobalID.
unfoldable pub append_event : AggregateKey → DomainEvent → Store → Store
append_event key e s = record s {
  all = s.all ++ e ∷ [];
  by_aggregate = insert key (lookup_or [] key s.by_aggregate ++ e ∷ []) s.by_aggregate;
  by_pii = index_pii e.pii_id e s.by_pii;
  next_global_id = e.global_id;
  subscribers = publish e s.subscribers;
}

-- s.nextGlobalID++; e.GlobalID = s.nextGlobalID
abbrev pub number : Store → DomainEvent → DomainEvent
number s e = record e { global_id = inc64 s.next_global_id }

unfoldable pub append_events : AggregateKey → List DomainEvent → Store → List DomainEvent × Store
append_events key [] s = ([], s)
append_events key (e ∷ es) s =
    let (rest, s') = append_events key es (append_event key (number s e) s) in
    (number s e ∷ rest, s')

abbrev pub current : AggregateKey → Store → List DomainEvent
current key s = lookup_or [] key s.by_aggregate

-- Commit, behind the stamping.
unfoldable pub commit_stamped : List DomainEvent → ℕ → Store → Committed Store
commit_stamped [] expected s = record { result = ok tt; store = s; events = [] }
commit_stamped (e ∷ es) expected s =
    if last_version (current (key_of e) s) == expected
    then (let (es', s') = append_events (key_of e) (e ∷ es) s in
        record { result = ok tt; store = s'; events = es' })
    else record { result = err Error.concurrency_conflict; store = s; events = e ∷ es }

-- Store.Commit
unfoldable pub commit : List DomainEvent → ℕ → List StoreOption → Store → Committed Store
unfolding commit_stamped
commit events expected opts s = commit_stamped (stamp (resolve_store_config opts) events) expected s

unfoldable pub found : Error → List DomainEvent → Result (List DomainEvent)
found e [] = err e
found e (x ∷ xs) = ok (x ∷ xs)

unfoldable pub or_else : List DomainEvent → List DomainEvent → List DomainEvent
or_else [] ys = ys
or_else (x ∷ xs) ys = x ∷ xs

-- The stream that Load looks up: the tenant's, or else the global one.
unfoldable pub stream_of : Option ℕ → ℕ → Store → List DomainEvent
unfolding or_else
stream_of none id s = current (record { tenant_id = 0; aggregate_id = id }) s
stream_of (some t) id s =
    or_else (current (record { tenant_id = t; aggregate_id = id }) s)
      (current (record { tenant_id = global_tenant_id; aggregate_id = id }) s)

-- Store.Load
unfoldable pub load : ℕ → List StoreOption → Store → Result (List DomainEvent)
unfolding found stream_of
load id opts s =
    found Error.aggregate_not_found (stream_of (resolve_store_config opts).tenant_id id s)

-- limit > 0 && len(out) >= limit
abbrev pub reached : ℤ → ℕ → Bool
reached (pos l) k = ltb 0 l && leb l k
reached (negsuc l) k = false

-- The loop of FetchAfter: `n` events are in `out` already.
unfoldable pub fetch : Option ℕ → ℕ → ℤ → ℕ → List DomainEvent → List DomainEvent
fetch tenant last limit n [] = []
fetch tenant last limit n (e ∷ es) =
    let skip = fetch tenant last limit n es in
    let more = fetch tenant last limit (n + 1) es in
    if leb e.global_id last
    then skip
    else if not (is_visible tenant e)
    then skip
    else if reached limit (n + 1)
    then e ∷ []
    else e ∷ more

-- Store.FetchAfter
unfoldable pub fetch_after : ℕ → ℤ → List StoreOption → Store → Result (List DomainEvent)
unfolding fetch
fetch_after last limit opts s = ok (fetch (resolve_store_config opts).tenant_id last limit 0 s.all)

-- Store.FetchByPiiID
unfoldable pub fetch_by_pii_id : ℕ → List StoreOption → Store → Result (List DomainEvent)
unfolding found
fetch_by_pii_id p opts s =
    found Error.subject_not_found
      (filter (is_visible (resolve_store_config opts).tenant_id) (lookup_or [] p s.by_pii))

-- Store.Get and Store.Save of the Checkpointer
unfoldable pub get : Bytes → Store → ℕ
get name s = lookup_or 0 name s.checkpoints

unfoldable pub save : Bytes → ℕ → Store → Store
save name last s = record s { checkpoints = insert name last s.checkpoints }

-- The store as an es.EventStore.
abbrev pub memory_store : EventStore Store
memory_store = record {
  commit = commit;
  load = load;
  fetch_after = fetch_after;
  fetch_by_pii_id = some fetch_by_pii_id;
}
