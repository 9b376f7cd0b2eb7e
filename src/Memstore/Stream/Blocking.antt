-- ===== src/Memstore/Stream/Blocking.antt =====
-- The lock and the channels of es/memstore/eventstore.go: a Commit that sends to a full channel waits
-- with the lock held, and a cancelled stream needs the lock to take its channel away.
use go_es_light.Base.{ℕ, ◌≤◌, ◌≡◌, Option, some, List, length, lookup, nat_eq, contains, true}
use go_es_light.Event.{DomainEvent}
use go_es_light.Memstore.{AggregateKey}
use go_es_light.Memstore.Stream.{Position, System, capacity}

-- A Commit holds the lock.
abbrev pub IsWriting : Option (AggregateKey × List DomainEvent) → Type 0
IsWriting w = (p : AggregateKey × List DomainEvent) × (w ≡ some p)

-- It has still to send the event that it appended last to the channel.
abbrev pub IsOwed : ℕ → Option (DomainEvent × List ℕ) → Type 0
IsOwed ch o = (e : DomainEvent) × (cs : List ℕ) × (o ≡ some (e, cs)) × (contains ch cs ≡ true)

abbrev pub IsFull : Option (List DomainEvent) → Type 0
IsFull o = (q : List DomainEvent) × (o ≡ some q) × (capacity ≤ length q)

-- The stream of ch is cancelled with its channel full, and a Commit has an event to send to it.
abbrev pub IsBlocked : ℕ → System → Type 0
IsBlocked ch s =
    (s.position ≡ Position.cancelled)
    × IsWriting s.writing
    × IsOwed ch s.publishing
    × IsFull (lookup ch s.store.subscribers)
