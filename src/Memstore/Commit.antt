-- ===== src/Memstore/Commit.antt =====
-- Store.Commit of es/memstore/eventstore.go does to the log what EventStore.Commit promises.
use go_es_light.Base.{
  ℕ, ◌+◌, ◌<◌, ◌≡◌, refl, ap, List, [], ◌∷◌, ◌++◌, ◌==◌, nat_eq, length, All, inc64, inc64-eq,
  u64_mod, arith, append_assoc, length-append, Bool-cases, inl, inr, append-nil, sym, ok, err,
  Error, ◌∙◌,
}
use go_es_light.Event.{DomainEvent}
use go_es_light.StoreConfig.{StoreOption, resolve_store_config, Committed}
use go_es_light.Memstore.{
  Store, AggregateKey, key_of, current, append_event, append_events, commit, commit_stamped, stamp,
  last_version,
}
use go_es_light.Memstore.Invariant.{IsValid, append_event-IsValid}
use go_es_light.Memstore.Log.{numbered_from, log_commit, IsBatch}

abbrev InStream : AggregateKey → DomainEvent → Type 0
InStream key e = key_of e ≡ key

-- What the loop of Commit leaves, without overflow of the counter.
abbrev Appended : List DomainEvent → Store → List DomainEvent × Store → Type 0
Appended es s (es', s') =
    (es' ≡ numbered_from (length s.all) es)
    × (s'.all ≡ s.all ++ numbered_from (length s.all) es)
    × IsValid s'

all-append_event :
    (key : AggregateKey) (e : DomainEvent) (s : Store)
    → (append_event key e s).all ≡ s.all ++ e ∷ []
unfolding append_event
all-append_event key e s = refl

-- The GlobalID that the loop gives out next.
next_id :
    (s : Store) → IsValid s → length s.all + 1 < u64_mod → inc64 s.next_global_id ≡ length s.all + 1
next_id s v h = rw v.next (inc64-eq (length s.all) h)

abbrev renumber : DomainEvent → ℕ → DomainEvent
renumber e n = record e { global_id = n }

step-IsValid :
    (key : AggregateKey) (e : DomainEvent) (s : Store)
    → IsValid s
    → key_of e ≡ key
    → IsValid (append_event key (renumber e (length s.all + 1)) s)
step-IsValid key e s v same =
    rw (← same) (append_event-IsValid s (renumber e (length s.all + 1)) v refl)

grown :
    (log log' : List DomainEvent) (e : DomainEvent) (n : ℕ) (es : List DomainEvent)
    → log' ≡ log ++ e ∷ []
    → length log' ≡ n + 1
    → log' ++ numbered_from (length log') es ≡ log ++ e ∷ numbered_from (n + 1) es
grown log log' e n es h k = rw (k, h) (append_assoc log (e ∷ []) (numbered_from (n + 1) es))

append_events-Appended :
    (key : AggregateKey) (es : List DomainEvent) (s : Store)
    → IsValid s
    → All (InStream key) es
    → length s.all + length es < u64_mod
    → Appended es s (append_events key es s)
unfolding append_events
append_events-Appended key [] s v same small = (refl, sym (append-nil s.all), v)
append_events-Appended key (e ∷ es) s v same small =
    let n = length s.all in
    let e' = renumber e (n + 1) in
    let s' = append_event key e' s in
    let log' : s'.all ≡ s.all ++ e' ∷ [] = all-append_event key e' s in
    let len' : length s'.all ≡ n + 1 = rw log' (omega (arith, length-append s.all (e' ∷ []))) in
    let rest =
      append_events-Appended key es s' (step-IsValid key e s v same.0) same.1
        (omega (arith, len')) in
    rw (next_id s v (omega arith)) (
      ap (◌∷◌ e') (rest.0 ∙ ap (λ m. numbered_from m es) len'),
      rest.1 ∙ grown s.all s'.all e' n es log' len',
      rest.2,
    )

-- The conditions under which a batch is one stream's and the counter does not overflow.
pub record Fits (events : List DomainEvent) (s : Store) : Type 0 where
  pub batch : IsBatch events
  pub small : length s.all + length events < u64_mod

abbrev Refines : List DomainEvent → ℕ → Store → Committed Store → Type 0
Refines events expected s c =
    ((c.result, c.store.all) ≡ log_commit events expected s.all) × IsValid c.store

commit_stamped-Refines :
    (events : List DomainEvent) (expected : ℕ) (s : Store)
    → IsValid s
    → Fits events s
    → Refines events expected s (commit_stamped events expected s)
unfolding commit_stamped
commit_stamped-Refines [] expected s v fits = (refl, v)
commit_stamped-Refines (e ∷ es) expected s v fits =
    let done = append_events-Appended (key_of e) (e ∷ es) s v (refl, fits.batch) fits.small in
    rw (← v.streams (key_of e))
      (elim (Bool-cases (last_version (current (key_of e) s) == expected)) [
        | inl same ↦ rw same (ap (λ log. (ok tt, log)) done.1, done.2)
        | inr other ↦ rw other (refl, v)
      ])

-- A commit of a batch to a valid store gives the error and the log that the specification on the
-- log alone gives, and leaves the store valid, if the batch lies in one stream and its GlobalIDs
-- fit 64 bits.
pub commit-refines-log :
    (events : List DomainEvent) (expected : ℕ) (opts : List StoreOption) (s : Store)
    → IsValid s
    → Fits (stamp (resolve_store_config opts) events) s
    → let c = commit events expected opts s in
      ((c.result, c.store.all)
        ≡ log_commit (stamp (resolve_store_config opts) events) expected s.all)
      × IsValid c.store
unfolding commit
commit-refines-log events expected opts s v fits =
    commit_stamped-Refines (stamp (resolve_store_config opts) events) expected s v fits

commit_stamped-err :
    (events : List DomainEvent) (expected : ℕ) (s : Store) (x : Error)
    → (commit_stamped events expected s).result ≡ err x
    → (x ≡ Error.concurrency_conflict)
      × ((commit_stamped events expected s).store ≡ s)
      × ((commit_stamped events expected s).events ≡ events)
unfolding commit_stamped
commit_stamped-err [] expected s x h = cc
commit_stamped-err (e ∷ es) expected s x h = ground arith

-- A commit that fails reports a concurrency conflict and has written nothing to the store. What
-- it leaves in the caller's hands are the events with the tenant stamped on them.
pub commit_failure :
    (events : List DomainEvent) (expected : ℕ) (opts : List StoreOption) (s : Store) (x : Error)
    → (commit events expected opts s).result ≡ err x
    → (x ≡ Error.concurrency_conflict)
      × ((commit events expected opts s).store ≡ s)
      × ((commit events expected opts s).events ≡ stamp (resolve_store_config opts) events)
unfolding commit
commit_failure events expected opts s x h =
    commit_stamped-err (stamp (resolve_store_config opts) events) expected s x h
