-- ===== src/Aggregate/Buffer.antt =====
-- RecordThat of es/aggregate.go: the buffer of uncommitted events, its versions and its errors.
use go_es_light.Base.{
  ℕ, ◌+◌, ◌<◌, ◌≡◌, ap, ◌∙◌, List, [], ◌∷◌, length, length-append, All, inc64, inc64-eq,
  dec64-inc64, u64_mod, Bytes, Result, ok, err, Error, arith, Map,
}
use go_es_light.Int.{ℤ}
use go_es_light.Event.{DomainEvent}
use go_es_light.Json.{Json, Codec}
use go_es_light.Memstore.Concurrency.{Versioned, Versioned-append}
use go_es_light.Aggregate.{
  Aggregate, Applier, RecordOption, Fresh, with_event_version, with_occurred_at, with_event_id,
  with_actor, with_pii_id, with_metadata, apply_record_options, record_that, envelope, set_version,
  record_applied, record_payload,
}

-- What no option may override: the identity, the version and the name of an event.
pub record SameEnvelope (e e' : DomainEvent) : Type 0 where
  pub aggregate_id : e'.aggregate_id ≡ e.aggregate_id
  pub aggregate_version : e'.aggregate_version ≡ e.aggregate_version
  pub name : e'.name ≡ e.name
  pub payload : e'.payload ≡ e.payload
  pub tenant_id : e'.tenant_id ≡ e.tenant_id

abbrev pub KeepsEnvelope : RecordOption → Type 0
KeepsEnvelope opt = (e : DomainEvent) → SameEnvelope e (opt e)

-- The options of the package keep the aggregate's id and version, the name, the payload and the
-- tenant of the event that they are given.
pub options_keep_envelope :
    (j : Json) (v : ℤ) (t i p : ℕ) (actor_type : Bytes) (fields : Map Bytes Bytes)
    → KeepsEnvelope (with_event_version v)
      × KeepsEnvelope (with_occurred_at t)
      × KeepsEnvelope (with_event_id i)
      × KeepsEnvelope (with_actor i actor_type)
      × KeepsEnvelope (with_pii_id p)
      × KeepsEnvelope (with_metadata j fields)
unfolding with_event_version with_occurred_at with_event_id with_actor with_pii_id with_metadata
options_keep_envelope j v t i p actor_type fields = (
  λ e. ground arith,
  λ e. ground arith,
  λ e. ground arith,
  λ e. ground arith,
  λ e. ground arith,
  λ e. ground arith,
)

SameEnvelope-trans : {a b c : DomainEvent} → SameEnvelope a b → SameEnvelope b c → SameEnvelope a c
SameEnvelope-trans h k = ground arith

pub apply_record_options-SameEnvelope :
    (opts : List RecordOption) (e : DomainEvent)
    → All KeepsEnvelope opts
    → SameEnvelope e (apply_record_options opts e)
unfolding apply_record_options
apply_record_options-SameEnvelope [] e h = ground arith
apply_record_options-SameEnvelope (opt ∷ opts) e h =
    SameEnvelope-trans (h.0 e) (apply_record_options-SameEnvelope opts (opt e) h.1)

-- The buffer holds the versions that lead up to the aggregate's own.
pub record IsBuffered {S : Type 0} (start : ℕ) (a : Aggregate S) : Type 0 where
  pub versions : Versioned start a.base.uncommitted
  pub current : a.base.version ≡ start + length a.base.uncommitted
  pub small : a.base.version < u64_mod

module _ {S E : Type 0} (c : Codec E) (apply : Applier S E) where
  -- A RecordThat that fails leaves the id, the version, which is below 2^64, and the buffer as
  -- they were.
  pub record_that_failure :
      (f : Fresh) (opts : List RecordOption) (event : E) (a : Aggregate S) (x : Error)
      → a.base.version < u64_mod
      → (record_that c apply f opts event a).0 ≡ err x
      → (record_that c apply f opts event a).1.base ≡ a.base
  unfolding record_that
  record_that_failure f opts event a x small h = ground (arith, dec64-inc64 a.base.version small)

  module _ (f : Fresh) (opts : List RecordOption) (event : E) (start : ℕ) (a : Aggregate S)
      (keep : All KeepsEnvelope opts) (b : IsBuffered start a)
      (small : a.base.version + 1 < u64_mod) where
    bumped : S → Aggregate S
    bumped s = record a { base = record (a.base) { version = inc64 a.base.version }; state = s }

    payload-IsBuffered :
        (s : S) (r : Result Bytes)
        → IsBuffered start (record_payload c apply f opts event (bumped s) r).1
    unfolding record_payload bumped
    payload-IsBuffered s (err x) =
        rw (dec64-inc64 a.base.version b.small)
          (record { versions = b.versions; current = b.current; small = b.small })
    payload-IsBuffered s (ok payload) =
        let e = envelope c apply f (bumped s) event payload in
        let same = apply_record_options-SameEnvelope opts e keep in
        let bump = inc64-eq a.base.version small in
        record {
          versions =
              Versioned-append start a.base.uncommitted (apply_record_options opts e ∷ [])
                b.versions (same.aggregate_version ∙ bump ∙ ap (λ n. n + 1) b.current, tt);
          current = omega (
            arith,
            bump,
            b.current,
            length-append a.base.uncommitted (apply_record_options opts e ∷ []),
          );
          small = omega (arith, bump);
        }

    applied-IsBuffered :
        (r : Result (Unit {0}) × S)
        → IsBuffered start
            (record_applied c apply f opts event (set_version (inc64 a.base.version) a) r).1
    unfolding record_applied bumped
    applied-IsBuffered (err x, s) = payload-IsBuffered s (err x)
    applied-IsBuffered (ok _, s) = payload-IsBuffered s (c.marshal event)

  -- RecordThat, successful or not, keeps the buffered versions leading from the starting version
  -- to the aggregate's own, if no option touches the envelope and the version does not overflow.
  pub record_that-IsBuffered :
      (f : Fresh) (opts : List RecordOption) (event : E) (start : ℕ) (a : Aggregate S)
      → All KeepsEnvelope opts
      → IsBuffered start a
      → a.base.version + 1 < u64_mod
      → IsBuffered start (record_that c apply f opts event a).1
  unfolding record_that
  record_that-IsBuffered f opts event start a keep b small =
      applied-IsBuffered f opts event start a keep b small (apply event a.state)
