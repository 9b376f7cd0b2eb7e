-- ===== src/ReadModel.antt =====
-- examples/user/adapters/readmodel/memory.go: the read model of the users, and its projector.
pub mod Tracking
use go_es_light.Base.{
  ℕ, Bool, Option, List, [], ◌∷◌, ◌==◌, nat_eq, list_eq, if◌then◌else◌, Map, lookup, insert, get_or,
  Bytes, bytes, Result, ok, err, Error, ◌>>=◌,
}
use go_es_light.Event.{DomainEvent}
use go_es_light.Json.{Codec}
use go_es_light.User.{UserEvent}
use go_es_light.User.Service.{UserView}

-- type Store struct
abbrev pub Views : Type 0
Views = Map ℕ UserView

-- Store.Upsert and Store.Get
unfoldable pub upsert : UserView → Views → Views
upsert view views = insert view.id view views

abbrev pub zero_view : UserView
zero_view = record { id = 0; email = []; name = []; version = 0 }

unfoldable pub get : ℕ → Views → Option UserView
get id views = lookup id views

-- payload.Email and payload.Name of the event that was unmarshalled
abbrev pub payload_email : UserEvent → Bytes
payload_email (UserEvent.user_registered email name) = email
payload_email (UserEvent.user_email_changed email) = email
payload_email _ = []

abbrev pub payload_name : UserEvent → Bytes
payload_name (UserEvent.user_registered email name) = name
payload_name (UserEvent.user_name_changed name) = name
payload_name _ = []

-- if event.PiiUnrecoverable { view.Email = "[erased]" } else { view.Email = payload.Email }
abbrev pub shown_email : Bool → UserEvent → Bytes
shown_email unrecoverable payload =
    if unrecoverable then bytes "[erased]" else payload_email payload

module _ (c : Codec UserEvent) where
  -- The switch of Handle, on the name of the event
  abbrev pub updated : Bytes → Bytes → Bool → UserView → Result UserView
  updated name payload unrecoverable view =
      if name == bytes "user.registered"
      then (c.unmarshal payload (UserEvent.user_registered [] []) >>= λ p.
          ok (record view { email = shown_email unrecoverable p; name = payload_name p }))
      else if name == bytes "user.email_changed"
      then (c.unmarshal payload (UserEvent.user_email_changed []) >>= λ p.
          ok (record view { email = shown_email unrecoverable p }))
      else if name == bytes "user.name_changed"
      then (c.unmarshal payload (UserEvent.user_name_changed []) >>= λ p.
          ok (record view { name = payload_name p }))
      else if name == bytes "user.erasure_requested"
      then ok view
      else err (Error.text "readmodel: unknown event")

  abbrev pub upserted : Views → Result UserView → Result (Unit {0}) × Views
  upserted views (err x) = (err x, views)
  upserted views (ok view) = (ok tt, upsert view views)

  -- UserProjector.Handle
  unfoldable pub handle : DomainEvent → Views → Result (Unit {0}) × Views
  unfolding upsert get
  handle e views = upserted views (
      updated e.name e.payload e.pii_unrecoverable
        (record (get_or zero_view (get e.aggregate_id views)) {
          id = e.aggregate_id;
          version = e.aggregate_version;
        }))

  abbrev pub handled :
      (Views → Result (Unit {0}) × Views) → Result (Unit {0}) × Views → Result (Unit {0}) × Views
  handled rest (err x, views) = (err x, views)
  handled rest (ok _, views) = rest views

  -- The events of a stream, each handled behind the one before it, up to the first that fails
  unfoldable pub project : List DomainEvent → Views → Result (Unit {0}) × Views
  unfolding handle
  project [] views = (ok tt, views)
  project (e ∷ es) views = handled (project es) (handle e views)
