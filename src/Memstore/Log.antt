-- ===== src/Memstore/Log.antt =====
-- What Store.Commit promises (es/store.go, EventStore.Commit), on the log alone.
use go_es_light.Base.{
  ℕ, ◌+◌, ◌≡◌, List, [], ◌∷◌, ◌++◌, ◌==◌, nat_eq, length, filter, if◌then◌else◌, All, Result, ok,
  err, Error,
}
use go_es_light.Event.{DomainEvent}
use go_es_light.Memstore.{AggregateKey, key_of, last_version}
use go_es_light.Memstore.Invariant.{in_stream}

-- The events with the GlobalIDs that follow n.
abbrev pub numbered_from : ℕ → List DomainEvent → List DomainEvent
numbered_from n [] = []
numbered_from n (e ∷ es) = record e { global_id = n + 1 } ∷ numbered_from (n + 1) es

-- The version of a stream in a log.
abbrev pub version_of : AggregateKey → List DomainEvent → ℕ
version_of k log = last_version (filter (in_stream k) log)

-- What a commit of a batch does to a log, and its error.
abbrev pub log_commit :
    List DomainEvent → ℕ → List DomainEvent → Result (Unit {0}) × List DomainEvent
log_commit [] expected log = (ok tt, log)
log_commit (e ∷ es) expected log =
    if version_of (key_of e) log == expected
    then (ok tt, log ++ numbered_from (length log) (e ∷ es))
    else (err Error.concurrency_conflict, log)

-- All events of a batch belong to the stream of its first one.
abbrev pub IsBatch : List DomainEvent → Type 0
IsBatch [] = Unit
IsBatch (e ∷ es) = All (λ x. key_of x ≡ key_of e) es
