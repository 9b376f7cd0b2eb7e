-- ===== src/ErasureVerifier.antt =====
-- ErasureVerifier of es/erasure_ledger.go: the evidence that a subject's data is gone.
pub mod Verdict
use go_es_light.Base.{
  ℕ, Bool, true, false, not, ◌&&◌, ◌||◌, Option, none, some, List, [], ◌∷◌, ◌==◌, nat_eq, filter,
  if◌then◌else◌, Bytes, Result, ok, err, Error, is_subject_not_found,
}
use go_es_light.Event.{DomainEvent}
use go_es_light.ErasureLedger.{ShredRecord, check_shred_chain}

pub record ErasureProof : Type 0 where
  pub subject : ℕ
  pub erasures : List ShredRecord
  pub key_forgotten : Bool
  pub events_unrecoverable : Bool

-- What Verify returns: the proof, or nil, and the error.
abbrev pub Verdict : Type 0
Verdict = Option ErasureProof × Result (Unit {0})

abbrev refused : Error → Verdict
refused x = (none, err x)

-- len(e.PiiFields) > 0 && !e.PiiUnrecoverable
abbrev pub still_opens : List ℕ → Bool → Bool
still_opens [] unrecoverable = false
still_opens (b ∷ bs) unrecoverable = not unrecoverable

-- The loop over the events: true if none of them still decrypts.
unfoldable pub all_unrecoverable : List DomainEvent → Bool
all_unrecoverable [] = true
all_unrecoverable (e ∷ es) =
    let rest = all_unrecoverable es in
    if still_opens e.pii_fields e.pii_unrecoverable then false else rest

abbrev pub is_none : Option Bytes → Bool
is_none none = true
is_none (some key) = false

-- The last two tests of Verify
abbrev pub concluded : ErasureProof → Verdict
concluded proof =
    if not proof.key_forgotten
    then (some proof, err (Error.text "es: pii: key still exists in the keyring"))
    else if not proof.events_unrecoverable
    then (some proof, err (Error.text "es: pii: some PII-bearing events still decrypt"))
    else (some proof, ok tt)

abbrev pub with_events : ErasureProof → Result (List DomainEvent) → Verdict
with_events proof (err x) =
    if is_subject_not_found x
    then concluded (record proof { events_unrecoverable = true })
    else refused (Error.wrap "es: pii: read subject events" x)
with_events proof (ok es) = concluded (record proof { events_unrecoverable = all_unrecoverable es })

abbrev pub with_key : ErasureProof → Result (List DomainEvent) → Result (Option Bytes) → Verdict
with_key proof events (err x) = refused (Error.wrap "es: pii: read key" x)
with_key proof events (ok key) = with_events (record proof { key_forgotten = is_none key }) events

abbrev pub with_erasures :
    ℕ → Result (List DomainEvent) → Result (Option Bytes) → List ShredRecord → Verdict
with_erasures p events key [] = (
  some (record { subject = p; erasures = []; key_forgotten = false; events_unrecoverable = false }),
  err Error.no_erasure_record,
)
with_erasures p events key (r ∷ rs) =
    with_key
      (record {
        subject = p;
        erasures = r ∷ rs;
        key_forgotten = false;
        events_unrecoverable = false;
      })
      events key

abbrev pub erasures_of : ℕ → List ShredRecord → List ShredRecord
erasures_of p = filter (λ r. r.pii_id == p)

module _ (sha : Bytes → Bytes) where
  abbrev pub with_chain :
      ℕ
      → Result (List DomainEvent)
      → Result (Option Bytes)
      → List ShredRecord
      → Result (Unit {0})
      → Verdict
  with_chain p events key rs (err x) = refused x
  with_chain p events key rs (ok _) = with_erasures p events key (erasures_of p rs)

  abbrev pub with_ledger :
      ℕ → Result (List DomainEvent) → Result (Option Bytes) → Result (List ShredRecord) → Verdict
  with_ledger p events key (err x) = refused (Error.wrap "es: pii: read erasure ledger" x)
  with_ledger p events key (ok rs) = with_chain p events key rs (check_shred_chain sha rs)

  -- ErasureVerifier.Verify, on what the ledger, the key ring and the lookup answer for the subject
  unfoldable pub verify :
      ℕ → Result (List ShredRecord) → Result (Option Bytes) → Result (List DomainEvent) → Verdict
  unfolding all_unrecoverable
  verify p entries key events = with_ledger p events key entries
