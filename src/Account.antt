-- ===== src/Account.antt =====
-- examples/ledger/domain: the Account aggregate and its events.
pub mod Balance
use go_es_light.Base.{
  ℕ, ◌+◌, ◌%◌, Bool, true, false, ◌||◌, List, [], ◌∷◌, ◌++◌, ◌==◌, nat_eq, list_eq, if◌then◌else◌,
  u64_mod, Bytes, bytes, Result, ok, err, Error,
}
use go_es_light.Int.{pos}
use go_es_light.Event.{DomainEvent}
use go_es_light.Json.{Json, Codec}
use go_es_light.Aggregate.{
  Aggregate, RecordOption, Fresh, with_event_version, with_actor, with_pii_id, with_metadata,
  record_that,
}

-- An int64 is its two's complement: a number below 2 ^ 64.
pub record Account : Type 0 where
  pub holder_name : Bytes
  pub holder_email : Bytes
  pub balance : ℕ
  pub opened : Bool

pub data AccountEvent : Type 0 where
  account_opened : Bytes → Bytes → ℕ → AccountEvent
  transaction_recorded : ℕ → Bytes → AccountEvent
  holder_erasure_requested : AccountEvent

-- EventName of the three types
abbrev pub event_name : AccountEvent → Bytes
event_name (AccountEvent.account_opened name email opening) = bytes "ledger.account_opened"
event_name (AccountEvent.transaction_recorded amount description) =
    bytes "ledger.transaction_recorded"
event_name AccountEvent.holder_erasure_requested = bytes "ledger.holder_erasure_requested"

abbrev pub zero_account : Account
zero_account = record { holder_name = []; holder_email = []; balance = 0; opened = false }

-- Account.Apply
unfoldable pub apply : AccountEvent → Account → Result (Unit {0}) × Account
apply (AccountEvent.account_opened name email opening) s =
    if s.opened then (err (Error.text "account: already opened"), s) else (
      ok tt,
      record { holder_name = name; holder_email = email; balance = opening; opened = true },
    )
apply (AccountEvent.transaction_recorded amount description) s =
    if s.opened
    then (ok tt, record s { balance = (s.balance + amount) % u64_mod })
    else (err (Error.text "account: not opened"), s)
apply AccountEvent.holder_erasure_requested s =
    if s.opened then (ok tt, s) else (err (Error.text "account: not opened"), s)

pub record Actor : Type 0 where
  pub id : ℕ
  pub actor_type : Bytes

-- if actor.isSet() { opts = append(opts, es.WithActor(actor.ID, actor.Type)) }
unfoldable pub actor_options : Actor → List RecordOption
actor_options actor = if actor.id == 0 then [] else with_actor actor.id actor.actor_type ∷ []

-- es.WithMetadata(map[string]any{"channel": channel}), which does nothing if the value has no JSON
abbrev pub channel_option : Json → Result Bytes → RecordOption
channel_option j (err _) = λ e. e
channel_option j (ok raw) = with_metadata j ((bytes "channel", raw) ∷ [])

module _ (c : Codec AccountEvent) (f : Fresh) where
  -- Account.Open
  unfoldable pub open_account :
      Bytes → Bytes → ℕ → Actor → Aggregate Account → Result (Unit {0}) × Aggregate Account
  unfolding apply
  open_account name email opening actor a =
      if (name == []) || (email == [])
      then (err (Error.text "account: holder name and email are required"), a)
      else record_that c apply f
          (with_pii_id a.base.id ∷ with_event_version (pos 1) ∷ actor_options actor)
          (AccountEvent.account_opened name email opening) a

  -- Account.RecordTransaction
  unfoldable pub record_transaction :
      Json
      → ℕ
      → Bytes
      → Bytes
      → Actor
      → List RecordOption
      → Aggregate Account
      → Result (Unit {0}) × Aggregate Account
  unfolding apply
  record_transaction j amount description channel actor opts a =
      if amount == 0
      then (err (Error.text "account: transaction amount must be non-zero"), a)
      else record_that c apply f
          ((channel_option j (j.encode_string channel) ∷ with_pii_id a.base.id ∷ opts)
            ++ actor_options actor)
          (AccountEvent.transaction_recorded amount description) a

  -- Account.RequestHolderErasure
  unfoldable pub request_holder_erasure :
      Actor → Aggregate Account → Result (Unit {0}) × Aggregate Account
  unfolding apply
  request_holder_erasure actor a =
      if a.state.opened
      then record_that c apply f (with_pii_id a.base.id ∷ actor_options actor)
          AccountEvent.holder_erasure_requested a
      else (err (Error.text "account: not opened"), a)
