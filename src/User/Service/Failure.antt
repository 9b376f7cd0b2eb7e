-- ===== src/User/Service/Failure.antt =====
-- UserService of examples/user/app/service.go over the in-memory store: a call that fails has no
-- effect on the store.
use go_es_light.Base.{ℕ, ◌≡◌, refl, ◌∙◌, List, [], ◌∷◌, Result, ok, err, Error, length, sub64}
use go_es_light.Event.{DomainEvent}
use go_es_light.StoreConfig.{StoreOption}
use go_es_light.Json.{Json, Codec}
use go_es_light.Aggregate.{Aggregate, Registry, Fresh}
use go_es_light.Memstore
use go_es_light.Memstore.{Store, memory_store}
use go_es_light.Memstore.Commit.{commit_failure}
use go_es_light.Repository
use go_es_light.Repository.{save_events, saved}
use go_es_light.User.{User, UserEvent, apply, register, change_email, change_name, request_erasure}
use go_es_light.User.Service.{
  UserView, new_user, load_user, in_tenant, Command, without_view, viewed, save_user, run, or_new,
  register_user, change_user_email, change_user_name, forget_user,
}

module _ (c : Codec UserEvent) (registry : Registry UserEvent) where
  -- A Save that fails leaves the store as it was.
  save_failure :
      (es : List DomainEvent) (u : Aggregate User) (opts : List StoreOption) (s : Store) (x : Error)
      → (save_events c apply registry new_user memory_store es u opts s).0 ≡ err x
      → (save_events c apply registry new_user memory_store es u opts s).2 ≡ s
  save_failure [] u opts s x h = cc
  save_failure (e ∷ es) u opts s x h =
      kept (Memstore.commit (e ∷ es) (sub64 u.base.version (length (e ∷ es))) opts s).result refl h
    where
      kept :
          (o : Result (Unit {0}))
          → (Memstore.commit (e ∷ es) (sub64 u.base.version (length (e ∷ es))) opts s).result ≡ o
          → let r = Memstore.commit (e ∷ es) (sub64 u.base.version (length (e ∷ es))) opts s in
            (saved c apply registry new_user memory_store u o r).0 ≡ err x
            → (saved c apply registry new_user memory_store u o r).2 ≡ s
      kept (ok _) q h' = cc
      kept (err y) q h' =
          (commit_failure (e ∷ es) (sub64 u.base.version (length (e ∷ es))) opts s y q).1

  viewed_failure :
      (r : Result (Unit {0}) × Aggregate User × Store) (x : Error)
      → (viewed c registry memory_store r).0 ≡ err x
      → (r.0 ≡ err x) × ((viewed c registry memory_store r).1 ≡ r.2)
  viewed_failure (err y, u, t) x h = (cc, refl)
  viewed_failure (ok _, u, t) x h = cc

  run_failure :
      (tenant : ℕ) (s : Store) (call : Aggregate User → Result (Unit {0}) × Aggregate User)
      (o : Result (Aggregate User)) (x : Error)
      → (run c registry memory_store tenant s call o).0 ≡ err x
      → (run c registry memory_store tenant s call o).1 ≡ s
  unfolding Repository.save
  run_failure tenant s call (err y) x h = refl
  run_failure tenant s call (ok u) x h = called (call u) h
    where
      called :
          (r : Result (Unit {0}) × Aggregate User)
          → (save_user c registry memory_store tenant s r).0 ≡ err x
          → (save_user c registry memory_store tenant s r).1 ≡ s
      called (err y, u') h' = refl
      called (ok _, u') h' =
          let (failed, same) =
            viewed_failure
              (save_events c apply registry new_user memory_store u'.base.uncommitted u'
                (in_tenant c registry memory_store tenant) s)
              x h' in
          same
          ∙ save_failure u'.base.uncommitted u' (in_tenant c registry memory_store tenant) s x
              failed

  without_view_failure :
      (r : Result UserView × Store) (x : Error)
      → (without_view c registry memory_store r).0 ≡ err x
      → (r.0 ≡ err x) × ((without_view c registry memory_store r).1 ≡ r.1)
  without_view_failure (err y, t) x h = (cc, refl)
  without_view_failure (ok _, t) x h = cc

  -- What a command leaves: its error, and the store.
  abbrev pub handle : Fresh → Json → Command → Store → Result (Unit {0}) × Store
  handle f j (Command.register_user_command tenant user email name actor) s =
      without_view c registry memory_store
        (register_user c registry memory_store f j tenant user email name actor s)
  handle f j (Command.change_email_command tenant user email actor) s =
      without_view c registry memory_store
        (change_user_email c registry memory_store f tenant user email actor s)
  handle f j (Command.change_name_command tenant user name) s =
      without_view c registry memory_store
        (change_user_name c registry memory_store f tenant user name s)
  handle f j (Command.forget_user_command tenant user actor) s =
      forget_user c registry memory_store f tenant user actor s

  run_call_failure :
      (tenant : ℕ) (s : Store) (call : Aggregate User → Result (Unit {0}) × Aggregate User)
      (o : Result (Aggregate User)) (x : Error)
      → (without_view c registry memory_store (run c registry memory_store tenant s call o)).0
        ≡ err x
      → (without_view c registry memory_store (run c registry memory_store tenant s call o)).1 ≡ s
  run_call_failure tenant s call o x h =
      let (failed, same) = without_view_failure (run c registry memory_store tenant s call o) x h in
      same ∙ run_failure tenant s call o x failed

  -- Over the in-memory store, a command that returns an error, from the load, from the user's own
  -- rules or from the commit, leaves the event store as it was.
  pub handle_failure :
      (f : Fresh) (j : Json) (command : Command) (s : Store) (x : Error)
      → (handle f j command s).0 ≡ err x
      → (handle f j command s).1 ≡ s
  unfolding register_user change_user_email change_user_name forget_user
  handle_failure f j (Command.register_user_command tenant user email name actor) s x h =
      run_call_failure tenant s (register c f j email name actor)
        (or_new c registry memory_store user (load_user c registry memory_store tenant user s)) x h
  handle_failure f j (Command.change_email_command tenant user email actor) s x h =
      run_call_failure tenant s (change_email c f email actor)
        (load_user c registry memory_store tenant user s) x h
  handle_failure f j (Command.change_name_command tenant user name) s x h =
      run_call_failure tenant s (change_name c f name)
        (load_user c registry memory_store tenant user s) x h
  handle_failure f j (Command.forget_user_command tenant user actor) s x h =
      run_call_failure tenant s (request_erasure c f actor)
        (load_user c registry memory_store tenant user s) x h
