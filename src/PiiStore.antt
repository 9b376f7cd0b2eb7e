-- ===== src/PiiStore.antt =====
-- es/pii_store.go: an event store that seals what it commits and opens what it reads.
pub mod Erasure
use go_es_light.Base.{
  ℕ, ◌+◌, Bool, true, false, Option, none, some, List, [], ◌∷◌, Bytes, Result, ok, err, Error,
  ◌>>=◌,
}
use go_es_light.Int.{ℤ}
use go_es_light.Event.{DomainEvent}
use go_es_light.StoreConfig.{StoreOption, EventStore, Committed}
use go_es_light.Json.{Json}
use go_es_light.Aggregate.{Registry, factory}
use go_es_light.KeyRing.{KeyRing}
use go_es_light.Pii
use go_es_light.Pii.{Aead, Draws, seal, open_event}

-- What the store asks of the payload types: the instance as json.Unmarshal leaves it, whatever its
-- error; the fields of ContainsPersonalData, if the type has it; and whether it has RequestsErasure.
pub record Payloads (E : Type 0) : Type 0 where
  pub unmarshalled : Bytes → E → E
  pub pii_fields : E → Option (List Bytes)
  pub requests_erasure : E → Bool

-- interface ErasureLedger, over the state L of an implementation: Append
pub record Ledger (L : Type 0) : Type 0 where
  pub append : ℕ → ℕ → ℕ → L → Result (Unit {0}) × L

-- type PiiEventStore struct: the state of the store, of the key ring and of the ledger
pub record PiiEventStore (T K L : Type 0) : Type 0 where
  pub store : T
  pub keys : K
  pub ledger : L

module _ {E : Type 0} (payloads : Payloads E) (registry : Registry E) where
  abbrev instance_of : DomainEvent → Option E → Option E
  instance_of e none = none
  instance_of e (some zero_value) = some (payloads.unmarshalled e.payload zero_value)

  -- PiiEventStore.payloadFor
  unfoldable pub payload_for : DomainEvent → Option E
  payload_for e = instance_of e (factory e.name registry)

  abbrev pub fields_of : Option E → Option (List Bytes)
  fields_of none = none
  fields_of (some payload) = payloads.pii_fields payload

  abbrev pub asks_erasure : Option E → Bool
  asks_erasure none = false
  asks_erasure (some payload) = payloads.requests_erasure payload

  module _ {T K L : Type 0} (a : Aead) (j : Json) (ring : KeyRing K) (store : EventStore T)
      (ledger : Option (Ledger L)) where
    -- The first loop of Commit. On an error the events before it are sealed, and those after it not.
    unfoldable pub seal_events :
        (ℕ → Draws) → ℕ → List DomainEvent → K → Result (Unit {0}) × List DomainEvent × K
    seal_events draws i [] k = (ok tt, [], k)
    seal_events draws i (e ∷ es) k =
        let (r, e', k') = seal a j ring (draws i) (fields_of (payload_for e)) e k in
        let (r', es', k'') = seal_events draws (i + 1) es k' in
        elim r [ ok _ ↦ (r', e' ∷ es', k'') | err x ↦ (err x, e' ∷ es, k') ]

    abbrev pub append_record : Option (Ledger L) → ℕ → ℕ → ℕ → L → Result (Unit {0}) × L
    append_record none p now origin l = (ok tt, l)
    append_record (some ledger') p now origin l = ledger'.append p now origin l

    abbrev pub recorded :
        ℕ → ℕ → DomainEvent → L → Result (Unit {0}) × K → Result (Unit {0}) × K × L
    recorded now p e l (err x, k) = (err x, k, l)
    recorded now p e l (ok _, k) =
        let (r, l') = append_record ledger p now e.global_id l in (r, k, l')

    abbrev pub erase_subject : ℕ → Option ℕ → Bool → DomainEvent → K → L → Result (Unit {0}) × K × L
    erase_subject now none asks e k l = (ok tt, k, l)
    erase_subject now (some p) false e k l = (ok tt, k, l)
    erase_subject now (some p) true e k l = recorded now p e l (Pii.forget a j ring p k)

    -- if err := ...; err != nil { return err }
    abbrev pub erase_next :
        Result (Unit {0}) × K × L → (K → L → Result (Unit {0}) × K × L) → Result (Unit {0}) × K × L
    erase_next (err x, k, l) next = (err x, k, l)
    erase_next (ok _, k, l) next = next k l

    -- The second loop of Commit, over the events that the wrapped store committed; time.Now is read
    -- for each.
    unfoldable pub erase_requested :
        (ℕ → ℕ) → ℕ → List DomainEvent → K → L → Result (Unit {0}) × K × L
    unfolding Pii.forget
    erase_requested now i [] k l = (ok tt, k, l)
    erase_requested now i (e ∷ es) k l =
        erase_next (erase_subject (now i) e.pii_id (asks_erasure (payload_for e)) e k l)
          (erase_requested now (i + 1) es)

    abbrev pub erased :
        T → List DomainEvent → Result (Unit {0}) × K × L → Committed (PiiEventStore T K L)
    erased t es (r, k, l) = record {
      result = r;
      store = record { store = t; keys = k; ledger = l };
      events = es;
    }

    -- Commit from the result of the wrapped store's Commit on
    abbrev pub committed :
        (ℕ → ℕ) → K → L → Result (Unit {0}) → T → List DomainEvent → Committed (PiiEventStore T K L)
    committed now k l (err x) t es = erased t es (err x, k, l)
    committed now k l (ok _) t es = erased t es (erase_requested now 0 es k l)

    -- Commit from the result of the first loop on
    abbrev pub sealed :
        (ℕ → ℕ)
        → ℕ
        → List StoreOption
        → PiiEventStore T K L
        → Result (Unit {0}) × List DomainEvent × K
        → Committed (PiiEventStore T K L)
    sealed now expected opts s (err x, es, k) = erased s.store es (err x, k, s.ledger)
    sealed now expected opts s (ok _, es, k) =
        let c = store.commit es expected opts s.store in
        committed now k s.ledger c.result c.store c.events

    -- PiiEventStore.Commit
    unfoldable pub commit :
        (ℕ → Draws)
        → (ℕ → ℕ)
        → List DomainEvent
        → ℕ
        → List StoreOption
        → PiiEventStore T K L
        → Committed (PiiEventStore T K L)
    unfolding seal_events erase_requested
    commit draws now events expected opts s =
        sealed now expected opts s (seal_events draws 0 events s.keys)

    -- PiiEventStore.openAll
    unfoldable pub open_all : K → List DomainEvent → Result (List DomainEvent)
    open_all k [] = ok []
    open_all k (e ∷ es) = open_event a j ring e k >>= λ o. open_all k es >>= λ os. ok (o ∷ os)

    -- PiiEventStore.Load and PiiEventStore.FetchAfter
    unfoldable pub load : ℕ → List StoreOption → PiiEventStore T K L → Result (List DomainEvent)
    unfolding open_all
    load id opts s = store.load id opts s.store >>= open_all s.keys

    unfoldable pub fetch_after :
        ℕ → ℤ → List StoreOption → PiiEventStore T K L → Result (List DomainEvent)
    unfolding open_all
    fetch_after last limit opts s = store.fetch_after last limit opts s.store >>= open_all s.keys

    abbrev lookup_opened :
        Option (ℕ → List StoreOption → T → Result (List DomainEvent))
        → ℕ
        → List StoreOption
        → PiiEventStore T K L
        → Result (List DomainEvent)
    lookup_opened none p opts s = err Error.pii_lookup_unsupported
    lookup_opened (some fetch) p opts s = fetch p opts s.store >>= open_all s.keys

    -- PiiEventStore.FetchByPiiID
    unfoldable pub fetch_by_pii_id :
        ℕ → List StoreOption → PiiEventStore T K L → Result (List DomainEvent)
    unfolding open_all
    fetch_by_pii_id p opts s = lookup_opened store.fetch_by_pii_id p opts s
