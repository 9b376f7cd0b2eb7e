-- ===== src/Aggregate/Replay.antt =====
-- LoadFromHistory of es/aggregate.go: replaying what RecordThat buffered gives the state that
-- RecordThat left.
use go_es_light.Base.{
  ◌≡◌, refl, ap, ◌∙◌, List, [], ◌∷◌, ◌++◌, some, All, inc64, Bytes, Result, ok, err, arith,
}
use go_es_light.Event.{DomainEvent}
use go_es_light.Json.{Codec}
use go_es_light.Aggregate.{
  Aggregate, Applier, Registry, RecordOption, Fresh, apply_record_options, envelope, record_that,
  record_applied, record_payload, set_version, factory, decode_event, replay_event,
  load_from_history,
}
use go_es_light.Aggregate.Buffer.{KeepsEnvelope, SameEnvelope, apply_record_options-SameEnvelope}

module _ {S E : Type 0} (c : Codec E) (apply : Applier S E) (registry : Registry E) where
  -- The event's name is registered, and JSON gives back what it was given for this event.
  pub record IsRegistered (event : E) : Type 0 where
    pub zero_value : E
    pub known : factory (c.event_name event) registry ≡ some zero_value
    pub round_trip : (b : Bytes) → c.marshal event ≡ ok b → c.unmarshal b zero_value ≡ ok event

  pub load_from_history-append :
      (xs ys : List DomainEvent) (a b : Aggregate S)
      → load_from_history c apply registry xs a ≡ (ok tt, b)
      → load_from_history c apply registry (xs ++ ys) a ≡ load_from_history c apply registry ys b
  unfolding load_from_history
  load_from_history-append [] ys a b h =
      ap (λ (r : Result (Unit {0}) × Aggregate S). load_from_history c apply registry ys r.1) h
  load_from_history-append (e ∷ xs) ys a b h =
      ground (arith, load_from_history-append xs ys (replay_event c apply registry e a).1 b)

  pub load_from_history_one :
      (e : DomainEvent) (a b : Aggregate S)
      → replay_event c apply registry e a ≡ (ok tt, b)
      → load_from_history c apply registry (e ∷ []) a ≡ (ok tt, b)
  unfolding load_from_history
  load_from_history_one e a b h = ground arith

  -- The aggregate x at the version and with the fields of a.
  abbrev pub caught_up : Aggregate S → Aggregate S → Aggregate S
  caught_up x a = record { base = record (x.base) { version = a.base.version }; state = a.state }

  -- Replaying the buffer of a on top of x gives the version and the fields of a.
  abbrev pub Replays : Aggregate S → Aggregate S → Type 0
  Replays x a = load_from_history c apply registry a.base.uncommitted x ≡ (ok tt, caught_up x a)

  decode-recorded :
      (event : E) (e : DomainEvent) (payload : Bytes)
      → IsRegistered event
      → c.marshal event ≡ ok payload
      → e.name ≡ c.event_name event
      → e.payload ≡ payload
      → decode_event c apply registry e ≡ ok event
  unfolding decode_event
  decode-recorded event e payload known m n p = rw (n, known.known, p, known.round_trip payload m)

  module _ (f : Fresh) (opts : List RecordOption) (event : E) (x a : Aggregate S)
      (keep : All KeepsEnvelope opts) (known : IsRegistered event) (h : Replays x a) where
    applied : S → Aggregate S
    applied s = record { base = record (a.base) { version = inc64 a.base.version }; state = s }

    -- One more replayed event, on top of the buffer.
    replay-recorded :
        (s : S) (e : DomainEvent) (payload : Bytes)
        → apply event a.state ≡ (ok tt, s)
        → c.marshal event ≡ ok payload
        → SameEnvelope (envelope c apply f (applied s) event payload) e
        → replay_event c apply registry e (caught_up x a) ≡ (ok tt, caught_up x (applied s))
    unfolding replay_event applied
    replay-recorded s e payload p m same =
        rw (
          decode-recorded event e payload known m same.name same.payload,
          p,
          same.aggregate_version,
        )

    payload-Replays :
        (s : S) (m : Result Bytes)
        → apply event a.state ≡ (ok tt, s)
        → c.marshal event ≡ m
        → (record_payload c apply f opts event (applied s) m).0 ≡ ok tt
        → Replays x (record_payload c apply f opts event (applied s) m).1
    unfolding record_payload applied
    payload-Replays s (err z) p m d = cc
    payload-Replays s (ok payload) p m d =
        let e = apply_record_options opts (envelope c apply f (applied s) event payload) in
        load_from_history-append a.base.uncommitted (e ∷ []) x (caught_up x a) h
        ∙ load_from_history_one e (caught_up x a) (caught_up x (applied s)) (
            replay-recorded s e payload p m (
              apply_record_options-SameEnvelope opts (envelope c apply f (applied s) event payload)
                keep))

    applied-Replays :
        (r : Result (Unit {0}) × S)
        → apply event a.state ≡ r
        → (record_applied c apply f opts event (set_version (inc64 a.base.version) a) r).0 ≡ ok tt
        → Replays x (record_applied c apply f opts event (set_version (inc64 a.base.version) a) r).1
    unfolding record_applied applied
    applied-Replays (err z, s) p d = cc
    applied-Replays (ok _, s) p d = payload-Replays s (c.marshal event) p refl d

  -- If replaying the buffer on some earlier state gives the aggregate's version and fields, it
  -- still does after a RecordThat that succeeds, so replay and live application do not diverge.
  -- The event's type is registered and JSON reads back what it wrote for it, and no option
  -- touches the envelope.
  pub record_that-Replays :
      (f : Fresh) (opts : List RecordOption) (event : E) (x a : Aggregate S)
      → All KeepsEnvelope opts
      → IsRegistered event
      → Replays x a
      → (record_that c apply f opts event a).0 ≡ ok tt
      → Replays x (record_that c apply f opts event a).1
  unfolding record_that
  record_that-Replays f opts event x a keep known h d =
      applied-Replays f opts event x a keep known h (apply event a.state) refl d
