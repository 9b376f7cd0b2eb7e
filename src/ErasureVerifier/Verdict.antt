-- ===== src/ErasureVerifier/Verdict.antt =====
-- Verify of es/erasure_ledger.go succeeds only on complete evidence.
use go_es_light.Base.{
  ℕ, ◌≡◌, ◌≢◌, ◌⊎◌, inl, inr, refl, Bool, true, false, Option, none, some, List, [], ◌∷◌, All,
  Bytes, Result, ok, err, Error, is_subject_not_found, arith, if◌then◌else◌,
}
use go_es_light.Event.{DomainEvent}
use go_es_light.ErasureLedger.{ShredRecord, check_shred_chain}
use go_es_light.ErasureVerifier.{
  ErasureProof, still_opens, all_unrecoverable, concluded, with_events, with_key, with_erasures,
  erasures_of, with_chain, verify,
}

-- No event of the list still decrypts: it has no sealed fields, or it is marked.
abbrev pub Unrecoverable : DomainEvent → Type 0
Unrecoverable e = (e.pii_fields ≡ []) ⊎ (e.pii_unrecoverable ≡ true)

-- What is known of the subject's events.
abbrev pub Gone : Result (List DomainEvent) → Type 0
Gone (ok es) = All Unrecoverable es
Gone (err x) = is_subject_not_found x ≡ true

all_unrecoverable-Unrecoverable :
    (es : List DomainEvent) → all_unrecoverable es ≡ true → All Unrecoverable es
unfolding all_unrecoverable
all_unrecoverable-Unrecoverable [] h = tt
all_unrecoverable-Unrecoverable (e ∷ es) h =
    step e.pii_fields e.pii_unrecoverable refl refl h (all_unrecoverable-Unrecoverable es)
  where
    step :
        (f : Bytes) (u : Bool)
        → e.pii_fields ≡ f
        → e.pii_unrecoverable ≡ u
        → (if still_opens f u then false else all_unrecoverable es) ≡ true
        → (all_unrecoverable es ≡ true → All Unrecoverable es)
        → All Unrecoverable (e ∷ es)
    step [] u p q h' rest = (inl p, rest h')
    step (b ∷ bs) true p q h' rest = (inr q, rest h')
    step (b ∷ bs) false p q h' rest = cc

-- A proof whose parts are given.
abbrev pub proof_of : ℕ → List ShredRecord → Bool → Bool → ErasureProof
proof_of p rs k v = record {
  subject = p;
  erasures = rs;
  key_forgotten = k;
  events_unrecoverable = v;
}

concluded-eq-ok :
    (p : ℕ) (rs : List ShredRecord) (k v : Bool)
    → (concluded (proof_of p rs k v)).1 ≡ ok tt
    → (k ≡ true) × (v ≡ true)
concluded-eq-ok p rs false v h = cc
concluded-eq-ok p rs true false h = cc
concluded-eq-ok p rs true true h = (refl, refl)

missing_lem :
    (p : ℕ) (rs : List ShredRecord) (k v : Bool) (x : Error) (b : Bool)
    → is_subject_not_found x ≡ b
    → (if b
        then concluded (proof_of p rs k true)
        else (none, err (Error.wrap "es: pii: read subject events" x))).1
      ≡ ok tt
    → (k ≡ true) × (b ≡ true)
missing_lem p rs k v x false e h = cc
missing_lem p rs k v x true e h = ((concluded-eq-ok p rs k true h).0, refl)

events-Gone :
    (p : ℕ) (rs : List ShredRecord) (k v : Bool) (events : Result (List DomainEvent))
    → (with_events (proof_of p rs k v) events).1 ≡ ok tt
    → (k ≡ true) × Gone events
events-Gone p rs k v (err x) h = missing_lem p rs k v x (is_subject_not_found x) refl h
events-Gone p rs k v (ok es) h =
    let (forgotten, gone) = concluded-eq-ok p rs k (all_unrecoverable es) h in
    (forgotten, all_unrecoverable-Unrecoverable es gone)

key-Gone :
    (p : ℕ) (rs : List ShredRecord) (events : Result (List DomainEvent))
    (key : Result (Option Bytes))
    → (with_key (proof_of p rs false false) events key).1 ≡ ok tt
    → (key ≡ ok none) × Gone events
key-Gone p rs events (err x) h = cc
key-Gone p rs events (ok none) h = (refl, (events-Gone p rs true false events h).1)
key-Gone p rs events (ok (some k)) h =
    absurd (ground (arith, (events-Gone p rs false false events h).0))

erasures-Gone :
    (p : ℕ) (events : Result (List DomainEvent)) (key : Result (Option Bytes))
    (rs : List ShredRecord)
    → (with_erasures p events key rs).1 ≡ ok tt
    → (rs ≢ []) × (key ≡ ok none) × Gone events
erasures-Gone p events key [] h = cc
erasures-Gone p events key (r ∷ rs) h =
    let (forgotten, gone) = key-Gone p (r ∷ rs) events key h in ((λ z. cc), forgotten, gone)

module _ (sha : Bytes → Bytes) where
  chain-Gone :
      (p : ℕ) (events : Result (List DomainEvent)) (key : Result (Option Bytes))
      (rs : List ShredRecord) (o : Result (Unit {0}))
      → (with_chain sha p events key rs o).1 ≡ ok tt
      → (o ≡ ok tt) × (erasures_of p rs ≢ []) × (key ≡ ok none) × Gone events
  chain-Gone p events key rs (err x) h = cc
  chain-Gone p events key rs (ok _) h =
      let (some_record, forgotten, gone) = erasures-Gone p events key (erasures_of p rs) h in
      (refl, some_record, forgotten, gone)

  -- Verify succeeds only if the ledger was read, its whole chain checks, it has a record for the
  -- subject, the key ring answered that there is no key, and each event of the subject has no sealed
  -- fields or is marked as unrecoverable, or the lookup answered that there are no events.
  pub verify-Gone :
      (p : ℕ) (entries : Result (List ShredRecord)) (key : Result (Option Bytes))
      (events : Result (List DomainEvent))
      → (verify sha p entries key events).1 ≡ ok tt
      → (rs : List ShredRecord) × (entries ≡ ok rs)
        × (check_shred_chain sha rs ≡ ok tt)
        × (erasures_of p rs ≢ [])
        × (key ≡ ok none)
        × Gone events
  unfolding verify
  verify-Gone p (err x) key events h = cc
  verify-Gone p (ok rs) key events h =
      let (checked, some_record, forgotten, gone) =
        chain-Gone p events key rs (check_shred_chain sha rs) h in
      (rs, refl, checked, some_record, forgotten, gone)
