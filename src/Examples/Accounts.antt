-- ===== src/Examples/Accounts.antt =====
-- examples/ledger/domain at concrete inputs.
use go_es_light.Base.{ℕ, ◌-◌, ◌≡◌, ◌≢◌, refl, true, List, [], ◌∷◌, u64_mod, ok}
use go_es_light.Json.{Json, Codec}
use go_es_light.Aggregate.{Aggregate, Fresh, record_that, record_applied, record_payload, zero_base}
use go_es_light.Account.{
  Account, AccountEvent, Actor, event_name, zero_account, apply, record_transaction,
}
use go_es_light.Account.Balance.{apply_all, Posted, record_transaction-Posted}

-- A deposit of 5 and a withdrawal of 7.
abbrev later : List AccountEvent
later =
    AccountEvent.transaction_recorded 5 []
    ∷ AccountEvent.transaction_recorded (u64_mod - 7) []
    ∷ AccountEvent.holder_erasure_requested
    ∷ []

abbrev opening : AccountEvent
opening = AccountEvent.account_opened (65 ∷ []) (66 ∷ []) 10

history_applies : (apply_all (opening ∷ later) zero_account).0 ≡ ok tt
unfolding apply_all apply
history_applies = refl

eight_left : (apply_all (opening ∷ later) zero_account).1.balance ≡ 8
unfolding apply_all apply
eight_left = refl

abbrev codec : Codec AccountEvent
codec = record {
  marshal = λ e. ok (event_name e);
  unmarshal = λ b zero_value. ok zero_value;
  event_name = event_name;
}

abbrev no_json : Json
no_json = record {
  decode_object = λ b. ok [];
  encode_object = λ m. ok (123 ∷ 125 ∷ []);
  decode_string = λ b. ok b;
  encode_string = λ b. ok b;
  decode_manifest = λ b. ok [];
  encode_manifest = λ b. ok [];
}

abbrev fresh : Fresh
fresh = record { uuid = 1; now = 2 }

abbrev teller : Actor
teller = record { id = 3; actor_type = 116 ∷ [] }

abbrev account : Aggregate Account
account = record {
  base = record zero_base { id = 5; version = 1 };
  state = record { holder_name = 65 ∷ []; holder_email = 66 ∷ []; balance = 10; opened = true };
}

posted : (record_transaction codec fresh no_json 5 [] (98 ∷ []) teller [] account).0 ≡ ok tt
unfolding record_transaction record_that record_applied record_payload apply
posted = refl

abbrev five : ℕ
five = 5

record_transaction-Posted_example :
    (five ≢ 0)
    × Posted codec fresh no_json five account
        (record_transaction codec fresh no_json 5 [] (98 ∷ []) teller [] account).1
record_transaction-Posted_example =
    record_transaction-Posted codec fresh no_json 5 [] (98 ∷ []) teller [] account posted
