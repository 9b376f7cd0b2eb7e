-- ===== src/Examples/Aggregates.antt =====
-- es/aggregate.go and es/repository.go at concrete inputs: a counter whose one event adds a number.
use go_es_light.Base.{
  ℕ, ◌+◌, ◌<◌, ◌≡◌, refl, ap, sym, ok-injective, List, [], ◌∷◌, Bool, none, if◌then◌else◌, ◌==◌,
  nat_eq, All, u64_mod, lookup, lookup_or, inc64, sub64, Bytes, Result, ok, err, Error, arith,
}
use go_es_light.Int.{pos}
use go_es_light.Event.{DomainEvent}
use go_es_light.StoreConfig.{StoreOption, resolve_store_config, with_tenant, apply_options}
use go_es_light.Json.{Json, Codec}
use go_es_light.Memstore
use go_es_light.Memstore.{
  Store, stamp, commit, commit_stamped, append_events, append_event, memory_store, current,
}
use go_es_light.Memstore.Invariant.{new-IsValid}
use go_es_light.Memstore.Commit.{Fits}
use go_es_light.Aggregate.{
  Aggregate, zero_base, Applier, Registry, factory, apply_record_options, Fresh, record_that,
  record_applied, record_payload, set_id, load_from_history, replay_event, decode_event,
}
use go_es_light.Aggregate.Buffer.{IsBuffered, record_that-IsBuffered}
use go_es_light.Aggregate.Replay.{IsRegistered, Replays, caught_up, record_that-Replays}
use go_es_light.Repository.{load, save}
use go_es_light.Repository.RoundTrip.{own_key, IsOwn, load-save}

abbrev first_or_error : Bytes → Result ℕ
first_or_error (n ∷ []) = ok n
first_or_error _ = err (Error.text "no number")

abbrev codec : Codec ℕ
codec = record {
  marshal = λ n. ok (n ∷ []);
  unmarshal = λ b zero_value. first_or_error b;
  event_name = λ n. 65 ∷ [];
}

abbrev add : Applier ℕ ℕ
add n s = if n == 0 then (err (Error.text "nothing to add"), s) else (ok tt, s + n)

abbrev counters : Registry ℕ
counters = (65 ∷ [], 0) ∷ []

abbrev new_counter : Aggregate ℕ
new_counter = record { base = zero_base; state = 0 }

abbrev counter : Aggregate ℕ
counter = record { base = record zero_base { id = 5 }; state = 0 }

abbrev fresh : Fresh
fresh = record { uuid = 1; now = 2 }

abbrev no_json : Json
no_json = record {
  decode_object = λ b. ok [];
  encode_object = λ m. ok (123 ∷ 125 ∷ []);
  decode_string = λ b. ok b;
  encode_string = λ b. ok b;
  decode_manifest = λ b. ok [];
  encode_manifest = λ b. ok [];
}

refused : (record_that codec add fresh [] 0 counter).0 ≡ err (Error.text "nothing to add")
unfolding record_that record_applied record_payload inc64
refused = refl

counter-small : counter.base.version < u64_mod
counter-small = omega arith

counter-IsBuffered : IsBuffered 0 counter
counter-IsBuffered = record { versions = tt; current = refl; small = counter-small }

record_that-IsBuffered_example : IsBuffered 0 (record_that codec add fresh [] 3 counter).1
record_that-IsBuffered_example =
    record_that-IsBuffered codec add fresh [] 3 0 counter tt counter-IsBuffered (omega arith)

three-IsRegistered : IsRegistered codec add counters 3
unfolding factory lookup
three-IsRegistered = record {
  zero_value = 0;
  known = refl;
  round_trip = λ b h. ap first_or_error (sym (ok-injective h));
}

nothing-Replays : Replays codec add counters counter counter
unfolding load_from_history
nothing-Replays = refl

recorded : (record_that codec add fresh [] 3 counter).0 ≡ ok tt
unfolding record_that record_applied record_payload inc64
recorded = refl

abbrev counted : Aggregate ℕ
counted = (record_that codec add fresh [] 3 counter).1

counted-Replays : Replays codec add counters counter counted
unfolding record_that record_applied record_payload inc64 load_from_history replay_event
    decode_event factory lookup apply_record_options
counted-Replays = refl

record_that-Replays_example : Replays codec add counters counter counted
record_that-Replays_example =
    record_that-Replays codec add counters fresh [] 3 counter counter tt three-IsRegistered
      nothing-Replays recorded

abbrev three_added : DomainEvent
three_added = record {
  global_id = 0;
  id = 1;
  tenant_id = 0;
  aggregate_id = 5;
  aggregate_version = 1;
  version = pos 1;
  name = 65 ∷ [];
  payload = 3 ∷ [];
  metadata = [];
  actor_id = none;
  actor_type = none;
  pii_id = none;
  pii_fields = [];
  pii_unrecoverable = Bool.false;
  occurred_at = 2;
}

buffered : counted.base.uncommitted ≡ three_added ∷ []
unfolding record_that record_applied record_payload inc64 apply_record_options
buffered = refl

abbrev mine : List StoreOption
mine = with_tenant 7 ∷ []

three_added-Fits : Fits (stamp (resolve_store_config mine) (three_added ∷ [])) Memstore.new
unfolding resolve_store_config apply_options with_tenant Memstore.new
three_added-Fits = record { batch = tt; small = omega arith }

three_added-IsOwn : All (IsOwn counted.base.id) (three_added ∷ [])
unfolding record_that record_applied record_payload inc64
three_added-IsOwn = ((refl, refl), tt)

empty_stream :
    load_from_history codec add counters
      (current (own_key (resolve_store_config mine).tenant_id counted.base.id) Memstore.new)
      (set_id counted.base.id new_counter)
    ≡ (ok tt, counter)
unfolding load_from_history record_that record_applied record_payload inc64 Memstore.new lookup_or
    lookup resolve_store_config apply_options with_tenant
empty_stream = refl

saved : (save codec add counters new_counter memory_store counted mine Memstore.new).0 ≡ ok tt
unfolding save record_that record_applied record_payload inc64 Memstore.new lookup_or lookup sub64
    resolve_store_config apply_options with_tenant commit commit_stamped append_events append_event
saved = refl

load-save_example :
    load codec add counters new_counter memory_store 5 mine
      (save codec add counters new_counter memory_store counted mine Memstore.new).2
    ≡ ok (caught_up codec add counters counter counted)
unfolding record_that record_applied record_payload inc64
load-save_example =
    load-save codec add counters new_counter mine counted counter three_added [] Memstore.new
      new-IsValid buffered three_added-Fits three_added-IsOwn empty_stream counted-Replays saved
