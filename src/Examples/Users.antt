-- ===== src/Examples/Users.antt =====
-- examples/user at a concrete input: a name is changed for a user that does not exist.
use go_es_light.Base.{
  ℕ, true, false, none, some, Bytes, bytes, ◌≡◌, refl, [], ◌∷◌, ok, err, Error, lookup_or, lookup,
}
use go_es_light.StoreConfig.{with_tenant, resolve_store_config, apply_options}
use go_es_light.Json.{Json, Codec}
use go_es_light.Int.{pos}
use go_es_light.Event.{DomainEvent}
use go_es_light.Aggregate.{
  Fresh, Aggregate, Registry, zero_base, decode_event, factory, replay_event, load_from_history,
}
use go_es_light.Memstore
use go_es_light.Memstore.{Store, found, or_else, stream_of}
use go_es_light.Repository
use go_es_light.User.{User, UserEvent, zero_user, event_name, apply}
use go_es_light.ReadModel.{Views, get, payload_email, project}
use go_es_light.ReadModel.Tracking.{IsStored, project-IsCurrent_new}
use go_es_light.User.Service.{Command, change_user_name, to_view}
use go_es_light.User.Service.Failure.{handle, handle_failure}

abbrev codec : Codec UserEvent
codec = record {
  marshal = λ e. ok (event_name e);
  unmarshal = λ b zero_value. ok zero_value;
  event_name = event_name;
}

abbrev no_json : Json
no_json = record {
  decode_object = λ b. ok [];
  encode_object = λ m. ok (123 ∷ 125 ∷ []);
  decode_string = λ b. ok b;
  encode_string = λ b. ok b;
  decode_manifest = λ b. ok [];
  encode_manifest = λ b. ok [];
}

abbrev fresh : Fresh
fresh = record { uuid = 1; now = 2 }

abbrev rename : Command
rename = Command.change_name_command 7 5 (65 ∷ [])

unknown_user : (handle codec [] fresh no_json rename Memstore.new).0 ≡ err Error.aggregate_not_found
unfolding change_user_name Repository.load Memstore.load found or_else stream_of Memstore.new
    lookup_or lookup resolve_store_config apply_options with_tenant
unknown_user = refl

handle_failure_example : (handle codec [] fresh no_json rename Memstore.new).1 ≡ Memstore.new
handle_failure_example =
    handle_failure codec [] fresh no_json rename Memstore.new Error.aggregate_not_found unknown_user

abbrev with_email : Bytes → UserEvent → UserEvent
with_email b (UserEvent.user_registered email name) = UserEvent.user_registered b name
with_email b (UserEvent.user_email_changed email) = UserEvent.user_email_changed b
with_email b e = e

-- A history of two events, whose payload is the email
abbrev emails : Codec UserEvent
emails = record {
  marshal = λ e. ok (payload_email e);
  unmarshal = λ b zero_value. ok (with_email b zero_value);
  event_name = event_name;
}

abbrev known_types : Registry UserEvent
known_types =
    (bytes "user.registered", UserEvent.user_registered [] [])
    ∷ (bytes "user.email_changed", UserEvent.user_email_changed [])
    ∷ []

abbrev stored : ℕ → Bytes → Bytes → DomainEvent
stored version name payload = record {
  global_id = version;
  id = 40;
  tenant_id = 3;
  aggregate_id = 5;
  aggregate_version = version;
  version = pos 1;
  name = name;
  payload = payload;
  metadata = [];
  actor_id = none;
  actor_type = none;
  pii_id = some 5;
  pii_fields = [];
  pii_unrecoverable = false;
  occurred_at = 1000;
}

abbrev registered : DomainEvent
registered = stored 1 (bytes "user.registered") (bytes "ada@old.example")

abbrev moved : DomainEvent
moved = stored 2 (bytes "user.email_changed") (bytes "ada@example.org")

registered-IsStored : IsStored emails known_types 5 registered
unfolding decode_event factory lookup
registered-IsStored = record {
  event = UserEvent.user_registered (bytes "ada@old.example") [];
  decoded = refl;
  named = refl;
  read = refl;
  opened = refl;
  of_user = refl;
}

moved-IsStored : IsStored emails known_types 5 moved
unfolding decode_event factory lookup
moved-IsStored = record {
  event = UserEvent.user_email_changed (bytes "ada@example.org");
  decoded = refl;
  named = refl;
  read = refl;
  opened = refl;
  of_user = refl;
}

abbrev ada : Aggregate User
ada = record { base = record (zero_base) { id = 5 }; state = zero_user }

abbrev ada_now : Aggregate User
ada_now = record {
  base = record { id = 5; version = 2; uncommitted = [] };
  state = record { email = bytes "ada@example.org"; name = []; registered = true };
}

replayed :
    load_from_history emails apply known_types (registered ∷ moved ∷ []) ada ≡ (ok tt, ada_now)
unfolding load_from_history replay_event decode_event factory lookup apply
replayed = refl

no_view : get 5 [] ≡ none
unfolding get lookup
no_view = refl

project-IsCurrent_new_example :
    (views : Views) × (project emails (registered ∷ moved ∷ []) [] ≡ (ok tt, views))
    × (get 5 views ≡ some (to_view ada_now))
project-IsCurrent_new_example =
    project-IsCurrent_new emails known_types 5 registered (moved ∷ []) [] ada ada_now
      (registered-IsStored, (moved-IsStored, tt)) replayed no_view refl refl
