-- ===== src/User.antt =====
-- examples/user/domain and examples/user/app/service.go: the User aggregate and its use cases.
pub mod Service
use go_es_light.Base.{
  ℕ, Bool, true, false, List, [], ◌∷◌, ◌++◌, ◌==◌, nat_eq, list_eq, if◌then◌else◌, Bytes, bytes,
  Result, ok, err, Error,
}
use go_es_light.Json.{Json, Codec}
use go_es_light.Aggregate.{
  Aggregate, RecordOption, Fresh, with_actor, with_pii_id, with_metadata, record_that,
}

-- The embedded BaseAggregate is that of Aggregate.
pub record User : Type 0 where
  pub email : Bytes
  pub name : Bytes
  pub registered : Bool

pub data UserEvent : Type 0 where
  user_registered : Bytes → Bytes → UserEvent
  user_email_changed : Bytes → UserEvent
  user_name_changed : Bytes → UserEvent
  user_erasure_requested : UserEvent

-- EventName of the four types
abbrev pub event_name : UserEvent → Bytes
event_name (UserEvent.user_registered email name) = bytes "user.registered"
event_name (UserEvent.user_email_changed email) = bytes "user.email_changed"
event_name (UserEvent.user_name_changed name) = bytes "user.name_changed"
event_name UserEvent.user_erasure_requested = bytes "user.erasure_requested"

abbrev pub zero_user : User
zero_user = record { email = []; name = []; registered = false }

abbrev not_registered : User → Result (Unit {0}) × User
not_registered u = (err (Error.text "user: not registered"), u)

-- User.Apply
unfoldable pub apply : UserEvent → User → Result (Unit {0}) × User
apply (UserEvent.user_registered email name) u =
    if u.registered
    then (err (Error.text "user: already registered"), u)
    else (ok tt, record { email = email; name = name; registered = true })
apply (UserEvent.user_email_changed email) u =
    if u.registered then (ok tt, record u { email = email }) else not_registered u
apply (UserEvent.user_name_changed name) u =
    if u.registered then (ok tt, record u { name = name }) else not_registered u
apply UserEvent.user_erasure_requested u = if u.registered then (ok tt, u) else not_registered u

pub record Actor : Type 0 where
  pub id : ℕ
  pub actor_type : Bytes

-- if actor.isSet() { opts = append(opts, es.WithActor(actor.ID, actor.Type)) }
unfoldable pub actor_options : Actor → List RecordOption
actor_options actor = if actor.id == 0 then [] else with_actor actor.id actor.actor_type ∷ []

-- es.WithMetadata(map[string]any{"signup_channel": "web"})
abbrev pub signup_option : Json → Result Bytes → RecordOption
signup_option j (err _) = λ e. e
signup_option j (ok raw) = with_metadata j ((bytes "signup_channel", raw) ∷ [])

module _ (c : Codec UserEvent) (f : Fresh) where
  -- User.Register
  unfoldable pub register :
      Json → Bytes → Bytes → Actor → Aggregate User → Result (Unit {0}) × Aggregate User
  unfolding apply
  register j email name actor u =
      if email == []
      then (err (Error.text "user: email is required"), u)
      else if name == []
      then (err (Error.text "user: name is required"), u)
      else record_that c apply f
          ((with_pii_id u.base.id ∷ actor_options actor)
            ++ signup_option j (j.encode_string (bytes "web")) ∷ [])
          (UserEvent.user_registered email name) u

  -- User.ChangeEmail
  unfoldable pub change_email : Bytes → Actor → Aggregate User → Result (Unit {0}) × Aggregate User
  unfolding apply
  change_email email actor u =
      if email == []
      then (err (Error.text "user: email is required"), u)
      else record_that c apply f (with_pii_id u.base.id ∷ actor_options actor)
          (UserEvent.user_email_changed email) u

  -- User.ChangeName
  unfoldable pub change_name : Bytes → Aggregate User → Result (Unit {0}) × Aggregate User
  unfolding apply
  change_name name u =
      if name == []
      then (err (Error.text "user: name is required"), u)
      else record_that c apply f [] (UserEvent.user_name_changed name) u

  -- User.RequestErasure
  unfoldable pub request_erasure : Actor → Aggregate User → Result (Unit {0}) × Aggregate User
  unfolding apply
  request_erasure actor u =
      if u.state.registered
      then record_that c apply f (with_pii_id u.base.id ∷ actor_options actor)
          UserEvent.user_erasure_requested u
      else (err (Error.text "user: not registered"), u)
