-- ===== src/User/Service.antt =====
-- UserService of examples/user/app/service.go, over any event store.
pub mod Failure
use go_es_light.Base.{
  ℕ, List, [], ◌∷◌, if◌then◌else◌, Bytes, Result, ok, err, Error, is_aggregate_not_found,
}
use go_es_light.StoreConfig.{StoreOption, with_tenant, EventStore}
use go_es_light.Json.{Json, Codec}
use go_es_light.Aggregate.{Aggregate, Registry, Fresh, zero_base, set_id}
use go_es_light.Repository
use go_es_light.User.{
  User, UserEvent, Actor, zero_user, apply, register, change_email, change_name, request_erasure,
}

-- The commands of examples/user/app/commands.go: tenant, user, and the rest.
pub data Command : Type 0 where
  register_user_command : ℕ → ℕ → Bytes → Bytes → Actor → Command
  change_email_command : ℕ → ℕ → Bytes → Actor → Command
  change_name_command : ℕ → ℕ → Bytes → Command
  forget_user_command : ℕ → ℕ → Actor → Command

-- type UserView struct
pub record UserView : Type 0 where
  pub id : ℕ
  pub email : Bytes
  pub name : Bytes
  pub version : ℕ

abbrev pub to_view : Aggregate User → UserView
to_view u = record {
  id = u.base.id;
  email = u.state.email;
  name = u.state.name;
  version = u.base.version;
}

-- &domain.User{}
abbrev pub new_user : Aggregate User
new_user = record { base = zero_base; state = zero_user }

module _ {T : Type 0} (c : Codec UserEvent) (registry : Registry UserEvent)
    (store : EventStore T) where
  abbrev pub in_tenant : ℕ → List StoreOption
  in_tenant tenant = with_tenant tenant ∷ []

  -- s.repo.Load(ctx, cmd.UserID, es.WithTenant(cmd.TenantID))
  abbrev pub load_user : ℕ → ℕ → T → Result (Aggregate User)
  load_user tenant user t =
      Repository.load c apply registry new_user store user (in_tenant tenant) t

  -- s.repo.Save(ctx, user, es.WithTenant(cmd.TenantID)), and the user and the store that it leaves
  abbrev pub viewed : Result (Unit {0}) × Aggregate User × T → Result UserView × T
  viewed (err x, u, t) = (err x, t)
  viewed (ok _, u, t) = (ok (to_view u), t)

  abbrev pub save_user : ℕ → T → Result (Unit {0}) × Aggregate User → Result UserView × T
  save_user tenant t (err x, u) = (err x, t)
  save_user tenant t (ok _, u) =
      viewed (Repository.save c apply registry new_user store u (in_tenant tenant) t)

  -- The steps after Load: one call on the aggregate, and Save
  abbrev pub run :
      ℕ
      → T
      → (Aggregate User → Result (Unit {0}) × Aggregate User)
      → Result (Aggregate User)
      → Result UserView × T
  run tenant t call (err x) = (err x, t)
  run tenant t call (ok u) = save_user tenant t (call u)

  -- A user that is not found is a new one.
  abbrev pub or_new : ℕ → Result (Aggregate User) → Result (Aggregate User)
  or_new user (ok u) = ok u
  or_new user (err x) = if is_aggregate_not_found x then ok (set_id user new_user) else err x

  -- UserService.RegisterUser
  unfoldable pub register_user :
      Fresh → Json → ℕ → ℕ → Bytes → Bytes → Actor → T → Result UserView × T
  register_user f j tenant user email name actor t =
      run tenant t (register c f j email name actor) (or_new user (load_user tenant user t))

  -- UserService.ChangeEmail
  unfoldable pub change_user_email : Fresh → ℕ → ℕ → Bytes → Actor → T → Result UserView × T
  change_user_email f tenant user email actor t =
      run tenant t (change_email c f email actor) (load_user tenant user t)

  -- UserService.ChangeName
  unfoldable pub change_user_name : Fresh → ℕ → ℕ → Bytes → T → Result UserView × T
  change_user_name f tenant user name t =
      run tenant t (change_name c f name) (load_user tenant user t)

  abbrev pub without_view : Result UserView × T → Result (Unit {0}) × T
  without_view (err x, t) = (err x, t)
  without_view (ok _, t) = (ok tt, t)

  -- UserService.ForgetUser
  unfoldable pub forget_user : Fresh → ℕ → ℕ → Actor → T → Result (Unit {0}) × T
  forget_user f tenant user actor t =
      without_view (run tenant t (request_erasure c f actor) (load_user tenant user t))
