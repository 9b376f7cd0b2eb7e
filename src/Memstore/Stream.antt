-- ===== src/Memstore/Stream.antt =====
-- Store.StreamAll of es/memstore/eventstore.go: the goroutine of one subscriber, interleaved with
-- commits event by event and with the other subscribers.
pub mod Owed
pub mod Kept
pub mod Delivery
pub mod Uninterrupted
pub mod Blocking
use go_es_light.Base.{
  ℕ, ◌<◌, ◌≡◌, ◌≢◌, true, false, Option, none, some, List, [], ◌∷◌, ◌++◌, filter, length, lookup,
  insert, delete, nat_eq, ◌==◌, lookup_or, not, map, contains,
}
use go_es_light.Event.{DomainEvent}
use go_es_light.StoreConfig.{StoreConfig, StoreOption, is_visible, resolve_store_config}
use go_es_light.Memstore.{
  Store, AggregateKey, key_eq, key_of, index_pii, number, current, last_version, stamp,
}

-- live := make(chan *es.DomainEvent, 64)
abbrev pub capacity : ℕ
capacity = 64

-- Where the goroutine is: in the loop over the backlog, at the select on `live`, at the select that
-- sends an event it received, past a cancellation and before its deferred calls, or at its end.
pub data Position : Type 0 where
  replaying : List DomainEvent → Position
  receiving : Position
  sending : DomainEvent → Position
  cancelled : Position
  finished : Position

-- The store, the commit that holds the lock, if one does, with the events it has still to append,
-- the channels that it has still to send the last appended event to, and the goroutine with the
-- events that its reader has received.
pub record System : Type 0 where
  pub store : Store
  pub writing : Option (AggregateKey × List DomainEvent)
  pub publishing : Option (DomainEvent × List ℕ)
  pub position : Position
  pub received : List DomainEvent

-- One round of Commit's loop up to its sends: the event is in the log and in the indexes.
abbrev pub logged_store : AggregateKey → DomainEvent → Store → Store
logged_store key e s = record s {
  all = s.all ++ e ∷ [];
  by_aggregate = insert key (lookup_or [] key s.by_aggregate ++ e ∷ []) s.by_aggregate;
  by_pii = index_pii e.pii_id e s.by_pii;
  next_global_id = e.global_id;
}

abbrev pub without : ℕ → List ℕ → List ℕ
without c = filter (λ x. not (x == c))

module _ (tenant : Option ℕ) (ch : ℕ) where
  -- StreamAll up to its goroutine: the backlog, and the new channel ch among the subscribers.
  unfoldable pub stream_all : Store → System
  stream_all s = record {
    store = record s { subscribers = insert ch [] s.subscribers };
    writing = none;
    publishing = none;
    position = Position.replaying (filter (is_visible tenant) s.all);
    received = [];
  }

  abbrev pub with_queue : List DomainEvent → Store → Store
  with_queue q s = record s { subscribers = insert ch q s.subscribers }

  pub data Step (s : System) : System → Type 0 where
    -- case out <- e, in the loop over the backlog
    sent_backlog :
        (e : DomainEvent) (es : List DomainEvent)
        → s.position ≡ Position.replaying (e ∷ es)
        → Step s (record s { position = Position.replaying es; received = s.received ++ e ∷ [] })
    replayed :
        s.position ≡ Position.replaying [] → Step s (record s { position = Position.receiving })
    -- case e := <-live, of an event that the stream skips, and of one that it passes on
    skipped :
        (e : DomainEvent) (q : List DomainEvent)
        → s.position ≡ Position.receiving
        → lookup ch s.store.subscribers ≡ some (e ∷ q)
        → is_visible tenant e ≡ false
        → Step s (record s { store = with_queue q s.store })
    taken :
        (e : DomainEvent) (q : List DomainEvent)
        → s.position ≡ Position.receiving
        → lookup ch s.store.subscribers ≡ some (e ∷ q)
        → is_visible tenant e ≡ true
        → Step s (record s { store = with_queue q s.store; position = Position.sending e })
    sent_live :
        (e : DomainEvent)
        → s.position ≡ Position.sending e
        → Step s (record s { position = Position.receiving; received = s.received ++ e ∷ [] })
    -- case <-ctx.Done(), at each of the selects
    cancelled_replaying :
        (e : DomainEvent) (es : List DomainEvent)
        → s.position ≡ Position.replaying (e ∷ es)
        → Step s (record s { position = Position.cancelled })
    cancelled_receiving :
        s.position ≡ Position.receiving → Step s (record s { position = Position.cancelled })
    cancelled_sending :
        (e : DomainEvent)
        → s.position ≡ Position.sending e
        → Step s (record s { position = Position.cancelled })
    -- the deferred delete, which takes the lock
    unsubscribed :
        s.position ≡ Position.cancelled
        → s.writing ≡ none
        → Step s (record s {
          store = record (s.store) { subscribers = delete ch s.store.subscribers };
          position = Position.finished;
        })
    -- A Commit takes the lock and passes the version check.
    began :
        (e : DomainEvent) (es : List DomainEvent) (expected : ℕ)
        → s.writing ≡ none
        → last_version (current (key_of e) s.store) ≡ expected
        → Step s (record s { writing = some (key_of e, e ∷ es) })
    -- One round of its loop: the event is appended, then sent to each subscriber, in any order; a
    -- send waits until its channel has room, and events are received in between.
    logged :
        (key : AggregateKey) (e : DomainEvent) (es : List DomainEvent)
        → s.writing ≡ some (key, e ∷ es)
        → s.publishing ≡ none
        → Step s (record s {
          store = logged_store key (number s.store e) s.store;
          writing = some (key, es);
          publishing = some (number s.store e, map (λ sub. sub.0) s.store.subscribers);
        })
    published :
        (e : DomainEvent) (c : ℕ) (cs : List ℕ) (q : List DomainEvent)
        → s.publishing ≡ some (e, cs)
        → contains c cs ≡ true
        → lookup c s.store.subscribers ≡ some q
        → length q < capacity
        → Step s (record s {
          store = record (s.store) { subscribers = insert c (q ++ e ∷ []) s.store.subscribers };
          publishing = some (e, without c cs);
        })
    published_all :
        (e : DomainEvent) → s.publishing ≡ some (e, []) → Step s (record s { publishing = none })
    ended :
        (key : AggregateKey)
        → s.writing ≡ some (key, [])
        → s.publishing ≡ none
        → Step s (record s { writing = none })
    -- Another subscriber receives, which takes no lock; others come and go, which takes it.
    other_received :
        (c : ℕ) (e : DomainEvent) (q : List DomainEvent)
        → c ≢ ch
        → lookup c s.store.subscribers ≡ some (e ∷ q)
        → Step s
            (record s { store = record (s.store) { subscribers = insert c q s.store.subscribers } })
    others :
        (m : List (ℕ × List DomainEvent))
        → lookup ch m ≡ lookup ch s.store.subscribers
        → s.writing ≡ none
        → Step s (record s { store = record (s.store) { subscribers = m } })

  pub data Reach (s : System) : System → Type 0 where
    here : Reach s s
    next : {t u : System} → Reach s t → Step t u → Reach s u

-- What a StreamAll with these options may come to.
abbrev pub StreamAll : ℕ → Store → List StoreOption → System → Type 0
StreamAll ch s opts =
    let tenant = (resolve_store_config opts).tenant_id in Reach tenant ch (stream_all tenant ch s)
