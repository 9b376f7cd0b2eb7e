-- ===== src/Account/Balance.antt =====
-- The balance of an account of examples/ledger/domain against its history.
use go_es_light.Base.{
  ℕ, ◌+◌, ◌<◌, ◌%◌, ◌≡◌, ◌≢◌, refl, ap, ◌∙◌, true, false, Bool, List, [], ◌∷◌, ◌==◌, nat_eq,
  nat_beq_iff, if◌then◌else◌, u64_mod, Bytes, inc64, length, length-append, ◌++◌, Result, ok, err,
  Error, arith,
}
use go_es_light.Json.{Json, Codec}
use go_es_light.Aggregate.{
  BaseAggregate, set_version, with_pii_id, Aggregate, RecordOption, Fresh, record_that,
  record_applied, record_payload,
}
use go_es_light.Account.{
  Account, AccountEvent, Actor, zero_account, apply, record_transaction, channel_option,
  actor_options,
}

abbrev applied_next :
    Result (Unit {0}) × Account
    → (Account → Result (Unit {0}) × Account)
    → Result (Unit {0}) × Account
applied_next (err x, s) next = (err x, s)
applied_next (ok _, s) next = next s

-- The events of a history, applied one after the other up to the first error.
unfoldable pub apply_all : List AccountEvent → Account → Result (Unit {0}) × Account
unfolding apply
apply_all [] s = (ok tt, s)
apply_all (e ∷ es) s = applied_next (apply e s) (apply_all es)

abbrev pub amount_of : AccountEvent → ℕ
amount_of (AccountEvent.account_opened name email opening) = opening
amount_of (AccountEvent.transaction_recorded amount description) = amount
amount_of AccountEvent.holder_erasure_requested = 0

abbrev pub amounts : List AccountEvent → ℕ
amounts [] = 0
amounts (e ∷ es) = amount_of e + amounts es

-- An account that has been opened.
abbrev holding : Bytes → Bytes → ℕ → Account
holding name email balance = record {
  holder_name = name;
  holder_email = email;
  balance = balance;
  opened = true;
}

mod-mod_add : (v a b : ℕ) → ((v + a) % u64_mod + b) % u64_mod ≡ (v + (a + b)) % u64_mod
mod-mod_add v a b = omega arith

apply_all-holding :
    (es : List AccountEvent) (name email : Bytes) (v : ℕ)
    → v < u64_mod
    → (apply_all es (holding name email v)).0 ≡ ok tt
    → (apply_all es (holding name email v)).1 ≡ holding name email ((v + amounts es) % u64_mod)
unfolding apply_all
apply_all-holding [] name email v b h = ap (holding name email) (omega (arith, b))
apply_all-holding (AccountEvent.account_opened n m o ∷ es) name email v b h = cc
apply_all-holding (AccountEvent.transaction_recorded amount description ∷ es) name email v b h =
    apply_all-holding es name email ((v + amount) % u64_mod) (omega arith) h
    ∙ ap (holding name email) (mod-mod_add v amount (amounts es))
apply_all-holding (AccountEvent.holder_erasure_requested ∷ es) name email v b h =
    apply_all-holding es name email v b h ∙ ap (holding name email) (omega arith)

-- A history that applies to a new account starts with its opening, and leaves the holder of that
-- opening and, as the balance, the opening balance plus all later amounts in 64-bit arithmetic,
-- if the opening balance is a 64-bit number.
apply_all-balance :
    (e : AccountEvent) (es : List AccountEvent)
    → amount_of e < u64_mod
    → (apply_all (e ∷ es) zero_account).0 ≡ ok tt
    → (name : Bytes) × (email : Bytes) × (opening : ℕ) × (e
        ≡ AccountEvent.account_opened name email opening)
      × ((apply_all (e ∷ es) zero_account).1 ≡ record {
        holder_name = name;
        holder_email = email;
        balance = (opening + amounts es) % u64_mod;
        opened = true;
      })
unfolding apply_all
apply_all-balance (AccountEvent.account_opened name email opening) es b h =
    (name, email, opening, refl, apply_all-holding es name email opening b h)
apply_all-balance (AccountEvent.transaction_recorded amount description) es b h = cc
apply_all-balance AccountEvent.holder_erasure_requested es b h = cc

module _ (c : Codec AccountEvent) (f : Fresh) (j : Json) where
  -- What a transaction that is recorded does to the aggregate.
  abbrev pub Posted : ℕ → Aggregate Account → Aggregate Account → Type 0
  Posted amount a a' =
      (a.state.opened ≡ true)
      × (a'.state ≡ record (a.state) { balance = (a.state.balance + amount) % u64_mod })
      × (a'.base.version ≡ inc64 a.base.version)
      × (length a'.base.uncommitted ≡ length a.base.uncommitted + 1)

  abbrev account : BaseAggregate → Bytes → Bytes → ℕ → Bool → Aggregate Account
  account base name email v opened = record {
    base = base;
    state = record { holder_name = name; holder_email = email; balance = v; opened = opened };
  }

  record_that-Posted :
      (opts : List RecordOption) (amount : ℕ) (description : Bytes) (base : BaseAggregate)
      (name email : Bytes) (v : ℕ) (opened : Bool)
      → let r =
          record_that c apply f opts
            (AccountEvent.transaction_recorded amount description)
            (account base name email v opened) in
        r.0 ≡ ok tt → Posted amount (account base name email v opened) r.1
  unfolding record_that record_applied record_payload apply
  record_that-Posted opts amount description base name email v false h = cc
  record_that-Posted opts amount description base name email v true h =
      marshalled (c.marshal (AccountEvent.transaction_recorded amount description)) h
    where
      marshalled :
          (o : Result Bytes)
          → let a =
              set_version
                (inc64 base.version)
                (account base name email ((v + amount) % u64_mod) true) in
            let r =
              record_payload c apply f opts
                (AccountEvent.transaction_recorded amount description)
                a
                o in
            r.0 ≡ ok tt → Posted amount (account base name email v true) r.1
      marshalled (err x) h' = cc
      marshalled (ok b) h' = (refl, refl, refl, length-append base.uncommitted _)

  -- A transaction that is recorded has an amount and an account that is open; it changes the balance
  -- by its amount in 64-bit arithmetic and nothing else of the account's fields, and adds one event
  -- to the buffer and one to the version.
  pub record_transaction-Posted :
      (amount : ℕ) (description channel : Bytes) (actor : Actor) (opts : List RecordOption)
      (a : Aggregate Account)
      → (record_transaction c f j amount description channel actor opts a).0 ≡ ok tt
      → (amount ≢ 0)
        × Posted amount a (record_transaction c f j amount description channel actor opts a).1
  unfolding record_transaction
  record_transaction-Posted amount description channel actor opts a h = tested (amount == 0) refl h
    where
      tested :
          (b : Bool)
          → (amount == 0) ≡ b
          → let r =
              if b
              then (err (Error.text "account: transaction amount must be non-zero"), a)
              else record_that c apply f
                  ((channel_option j (j.encode_string channel) ∷ with_pii_id a.base.id ∷ opts)
                    ++ actor_options actor)
                  (AccountEvent.transaction_recorded amount description)
                  a in
            r.0 ≡ ok tt → (amount ≢ 0) × Posted amount a r.1
      tested true e h' = cc
      tested false e h' = (
        λ z. ground (arith, nat_beq_iff amount 0, e, z),
        record_that-Posted
            ((channel_option j (j.encode_string channel) ∷ with_pii_id a.base.id ∷ opts)
              ++ actor_options actor)
            amount description a.base a.state.holder_name a.state.holder_email a.state.balance
            a.state.opened h',
      )
