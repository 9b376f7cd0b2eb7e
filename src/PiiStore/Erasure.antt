-- ===== src/PiiStore/Erasure.antt =====
-- PiiEventStore.Commit of es/pii_store.go, over the in-memory ring: a committed request for erasure
-- destroys the key of its subject.
use go_es_light.Base.{
  ℕ, ◌+◌, ◌≡◌, ap, ◌∙◌, Bool, true, false, Option, none, some, List, [], ◌∷◌, All, lookup,
  lookup-delete, lookup-delete_self, nat_eq, Result, ok, err, arith,
}
use go_es_light.Event.{DomainEvent}
use go_es_light.StoreConfig.{StoreOption, EventStore}
use go_es_light.Json.{Json}
use go_es_light.Aggregate.{Registry}
use go_es_light.KeyRing
use go_es_light.KeyRing.{MemoryKeys, memory_keys}
use go_es_light.Pii
use go_es_light.Pii.{Aead, Draws}
use go_es_light.PiiStore.{
  Payloads, Ledger, PiiEventStore, payload_for, asks_erasure, erase_subject, erase_next,
  erase_requested, seal_events, committed, sealed, commit,
}

module _ {E T L : Type 0} (payloads : Payloads E) (registry : Registry E) (a : Aead) (j : Json)
    (store : EventStore T) (ledger : Option (Ledger L)) where
  abbrev erase :
      (ℕ → ℕ) → ℕ → List DomainEvent → MemoryKeys → L → Result (Unit {0}) × MemoryKeys × L
  erase = erase_requested payloads registry a j memory_keys store ledger

  abbrev erase_one :
      ℕ → Option ℕ → Bool → DomainEvent → MemoryKeys → L → Result (Unit {0}) × MemoryKeys × L
  erase_one = erase_subject payloads registry a j memory_keys store ledger

  -- A subject that has no key gets none.
  erase_one-absent :
      (now : ℕ) (o : Option ℕ) (asks : Bool) (e : DomainEvent) (k : MemoryKeys) (l : L) (q : ℕ)
      → lookup q k ≡ none
      → lookup q (erase_one now o asks e k l).1 ≡ none
  unfolding Pii.forget KeyRing.forget
  erase_one-absent now none asks e k l q h = h
  erase_one-absent now (some p) false e k l q h = h
  erase_one-absent now (some p) true e k l q h = rw (lookup-delete p q k) (ground (arith, h))

  erase_next-absent :
      (r : Result (Unit {0}) × MemoryKeys × L)
      (next : MemoryKeys → L → Result (Unit {0}) × MemoryKeys × L) (q : ℕ)
      → lookup q r.1 ≡ none
      → ((k : MemoryKeys) (l : L) → lookup q k ≡ none → lookup q (next k l).1 ≡ none)
      → lookup q (erase_next payloads registry a j memory_keys store ledger r next).1 ≡ none
  erase_next-absent (err x, k, l) next q h rest = h
  erase_next-absent (ok u, k, l) next q h rest = rest k l h

  erase-absent :
      (now : ℕ → ℕ) (i : ℕ) (es : List DomainEvent) (k : MemoryKeys) (l : L) (q : ℕ)
      → lookup q k ≡ none
      → lookup q (erase now i es k l).1 ≡ none
  unfolding erase_requested
  erase-absent now i [] k l q h = h
  erase-absent now i (e ∷ es) k l q h =
      let asks = asks_erasure payloads registry (payload_for payloads registry e) in
      erase_next-absent (erase_one (now i) e.pii_id asks e k l) (erase now (i + 1) es) q
        (erase_one-absent (now i) e.pii_id asks e k l q h)
        (λ k' l' h'. erase-absent now (i + 1) es k' l' q h')

  erase_one_gone :
      (now p : ℕ) (e : DomainEvent) (k : MemoryKeys) (l : L)
      → lookup p (erase_one now (some p) true e k l).1 ≡ none
  unfolding Pii.forget KeyRing.forget
  erase_one_gone now p e k l = lookup-delete_self p k

  -- If the event asks for the erasure of a subject, the ring has no key for it.
  abbrev pub Erased : MemoryKeys → DomainEvent → Type 0
  Erased k e =
      (p : ℕ)
      → e.pii_id ≡ some p
      → asks_erasure payloads registry (payload_for payloads registry e) ≡ true
      → lookup p k ≡ none

  erase-Erased :
      (now : ℕ → ℕ) (i : ℕ) (es : List DomainEvent) (k : MemoryKeys) (l : L)
      → (erase now i es k l).0 ≡ ok tt
      → All (Erased (erase now i es k l).1) es
  unfolding erase_requested
  erase-Erased now i [] k l h = tt
  erase-Erased now i (e ∷ es) k l h =
      let asks = asks_erasure payloads registry (payload_for payloads registry e) in
      let gone : Erased (erase_one (now i) e.pii_id asks e k l).1 e = λ p subject asked.
        ap (λ o. lookup p (erase_one (now i) o asks e k l).1) subject
        ∙ ap (λ b. lookup p (erase_one (now i) (some p) b e k l).1) asked
        ∙ erase_one_gone (now i) p e k l in
      after (erase_one (now i) e.pii_id asks e k l) h gone
        (λ k' l' h'. erase-Erased now (i + 1) es k' l' h')
    where
      after :
          (r : Result (Unit {0}) × MemoryKeys × L)
          → (erase_next payloads registry a j memory_keys store ledger r (erase now (i + 1) es)).0
            ≡ ok tt
          → Erased r.1 e
          → ((k' : MemoryKeys) (l' : L)
              → (erase now (i + 1) es k' l').0 ≡ ok tt
              → All (Erased (erase now (i + 1) es k' l').1) es)
          → All
              (Erased
                (erase_next payloads registry a j memory_keys store ledger r
                  (erase now (i + 1) es)).1)
              (e ∷ es)
      after (err x, k', l') h' gone rest = cc
      after (ok u, k', l') h' gone rest = (
        (λ p subject asked. erase-absent now (i + 1) es k' l' p (gone p subject asked)),
        rest k' l' h',
      )

  committed-Erased :
      (now : ℕ → ℕ) (k : MemoryKeys) (l : L) (r : Result (Unit {0})) (t : T) (es : List DomainEvent)
      → let c = committed payloads registry a j memory_keys store ledger now k l r t es in
        c.result ≡ ok tt → All (Erased c.store.keys) c.events
  committed-Erased now k l (err x) t es h = cc
  committed-Erased now k l (ok u) t es h = erase-Erased now 0 es k l h

  sealed-Erased :
      (now : ℕ → ℕ) (expected : ℕ) (opts : List StoreOption) (s : PiiEventStore T MemoryKeys L)
      (r : Result (Unit {0}) × List DomainEvent × MemoryKeys)
      → let c = sealed payloads registry a j memory_keys store ledger now expected opts s r in
        c.result ≡ ok tt → All (Erased c.store.keys) c.events
  sealed-Erased now expected opts s (err x, es, k) h = cc
  sealed-Erased now expected opts s (ok u, es, k) h =
      let c = store.commit es expected opts s.store in
      committed-Erased now k s.ledger c.result c.store c.events h

  -- Over the in-memory ring, a Commit that succeeds leaves no key for any subject whose erasure
  -- one of the committed events requests, whatever the ledger and the wrapped store.
  pub commit-Erased :
      (draws : ℕ → Draws) (now : ℕ → ℕ) (events : List DomainEvent) (expected : ℕ)
      (opts : List StoreOption) (s : PiiEventStore T MemoryKeys L)
      → let c =
          commit payloads registry a j memory_keys store ledger draws now events expected opts s in
        c.result ≡ ok tt → All (Erased c.store.keys) c.events
  unfolding commit
  commit-Erased draws now events expected opts s h =
      sealed-Erased now expected opts s
        (seal_events payloads registry a j memory_keys store ledger draws 0 events s.keys) h
