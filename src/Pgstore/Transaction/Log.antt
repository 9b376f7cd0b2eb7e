-- ===== src/Pgstore/Transaction/Log.antt =====
-- Store.Commit of es/pgstore/eventstore.go against a log, over a database that keeps the events table.
use go_es_light.Base.{
  ℕ, ◌≡◌, refl, ap, sym, ◌∙◌, Bool, true, false, Option, none, some, List, ◌∷◌, ◌++◌, map, filter,
  ◌==◌, nat_eq, Result, ok, err, Error, if◌then◌else◌, eq_of_beq, ◌⊎◌, inl, inr,
}
use mathlib.Core.Path.{subst}
use go_es_light.Event.{DomainEvent}
use go_es_light.StoreConfig.{StoreConfig, StoreOption, resolve_store_config}
use go_es_light.Pgstore.{Value, Store, Statement}
use go_es_light.Pgstore.Queries.{version_query, check_tracking}
use go_es_light.Pgstore.Database.{Database}
use go_es_light.Pgstore.Transaction.{
  stamp_event, IdText, tenant_context, lock_statement, Outcome, Inserted, insert_events, failed,
  committed, inserted, read_version, locked, set_context, context_set, in_transaction,
  tracking_checked, commit,
}
use go_es_light.Pgstore.Rollback.{
  Leads, Ends, Ends-Leads, with_rollback, rollback_result, rollback_state-eq,
}
use go_es_light.Pgstore.Transaction.Table.{
  max_version, in_scope, SameEvents, IsTable, Appended, insert_events-Appended,
}

module _ {D : Type 0} {T : Type 0} (db : Database D T) (s : Store) (id_text : IdText)
    (kept : DomainEvent → DomainEvent) where
  module _ (log : D → List DomainEvent) (seen : T → List DomainEvent) where
    -- The version was the expected one, and the log has grown by all the events.
    abbrev pub HasGrown :
        Option ℕ
        → ℕ
        → ℕ
        → List DomainEvent
        → List DomainEvent
        → List DomainEvent
        → List DomainEvent
        → Type 0
    HasGrown tenant id expected es before after es' =
        (max_version (filter (in_scope tenant id) before) ≡ expected)
        × (after ≡ before ++ map kept es')
        × SameEvents es' es

    -- What a Commit of the events es makes of the log: with an error nothing, or all as without one.
    abbrev pub Refines :
        Option ℕ
        → ℕ
        → ℕ
        → List DomainEvent
        → List DomainEvent
        → Result (Unit {0})
        → List DomainEvent
        → List DomainEvent
        → Type 0
    Refines tenant id expected es before r after es' =
        Leads ((after ≡ before) ⊎ HasGrown tenant id expected es before after es')
          (HasGrown tenant id expected es before after es') r

    module _ (cfg : StoreConfig) (id expected : ℕ) (es : List DomainEvent) (d : D)
        (table : IsTable db s id_text kept log seen) where
      -- The same of the body of Commit, which has called tx.Commit if it has no error.
      abbrev EndsWell : Outcome D T → Type 0
      EndsWell o =
          Ends
            ((log o.database ≡ log d)
              ⊎ HasGrown cfg.tenant_id id expected es (log d) (log o.database) o.events)
            (HasGrown cfg.tenant_id id expected es (log d) (log o.database) o.events) o.result
            o.done

      committed-EndsWell :
          (t t' : T) (es' : List DomainEvent) (p : Result (Unit {0}) × D)
          → seen t ≡ log d
          → max_version (filter (in_scope cfg.tenant_id id) (seen t)) ≡ expected
          → db.tx_commit t' d ≡ p
          → Appended db s id_text kept log seen es t (ok tt, es', t')
          → EndsWell (committed db s t' es' p)
      committed-EndsWell t t' es' (err x, d') start version h (grown, same) =
          elim (table.refuses t' d d' x h) [
            | inl unchanged ↦ inl unchanged
            | inr lost ↦ inr (
              ap (λ l. max_version (filter (in_scope cfg.tenant_id id) l)) (sym start) ∙ version,
              lost ∙ grown ∙ ap (λ l. l ++ map kept es') start,
              same,
            )
          ]
      committed-EndsWell t t' es' (ok _, d') start version h (grown, same) = (
        refl,
        (
          ap (λ l. max_version (filter (in_scope cfg.tenant_id id) l)) (sym start) ∙ version,
          table.commits t' d d' h ∙ grown ∙ ap (λ l. l ++ map kept es') start,
          same,
        ),
      )

      inserted-EndsWell :
          (t : T) (r : Inserted T)
          → seen t ≡ log d
          → max_version (filter (in_scope cfg.tenant_id id) (seen t)) ≡ expected
          → Appended db s id_text kept log seen es t r
          → EndsWell (inserted db s d r)
      inserted-EndsWell t (err x, es', t') start version a = inl refl
      inserted-EndsWell t (ok _, es', t') start version a =
          committed-EndsWell t t' es' (db.tx_commit t' d) start version refl a

      compared-EndsWell :
          (t : T) (v : ℕ) (b : Bool)
          → (v == expected) ≡ b
          → seen t ≡ log d
          → max_version (filter (in_scope cfg.tenant_id id) (seen t)) ≡ v
          → EndsWell (
              if b
              then inserted db s d (insert_events db s es t)
              else failed db s Error.concurrency_conflict t d es)
      compared-EndsWell t v true h start version =
          inserted-EndsWell t (insert_events db s es t) start (version ∙ eq_of_beq v expected h)
            (insert_events-Appended db s id_text kept log seen es t table)
      compared-EndsWell t v false h start version = inl refl

      read_version-EndsWell :
          (t : T) (p : Result (List Value) × T)
          → seen t ≡ log d
          → db.tx_query_row (version_query cfg id) t ≡ p
          → EndsWell (read_version db s expected es d p)
      read_version-EndsWell t (err x, t') start h = inl refl
      read_version-EndsWell t (ok row, t') start h =
          let (number, same) = table.reads_version cfg id t t' row h in
          let v = max_version (filter (in_scope cfg.tenant_id id) (seen t)) in
          subst (λ r. EndsWell (read_version db s expected es d (ok r, t'))) (sym number)
            (compared-EndsWell t' v (v == expected) refl (same ∙ start)
              (ap (λ l. max_version (filter (in_scope cfg.tenant_id id) l)) same))

      locked-EndsWell :
          (p : Result (Unit {0}) × T)
          → seen p.1 ≡ log d
          → EndsWell (locked db s cfg id expected es d p)
      locked-EndsWell (err x, t) start = inl refl
      locked-EndsWell (ok _, t) start =
          read_version-EndsWell t (db.tx_query_row (version_query cfg id) t) start refl

      context_set-EndsWell :
          (p : Result (Unit {0}) × T)
          → seen p.1 ≡ log d
          → EndsWell (context_set db s id_text cfg id expected es d p)
      context_set-EndsWell (err x, t) start = inl refl
      context_set-EndsWell (ok _, t) start =
          locked-EndsWell (db.tx_exec (lock_statement id_text id) t) (table.locks id t ∙ start)

      set_context-seen :
          (t : T) (q : Option Statement)
          → tenant_context id_text cfg ≡ q
          → seen (set_context db s q t).1 ≡ seen t
      set_context-seen t none h = refl
      set_context-seen t (some q) h = table.sets_context cfg q t h

      in_transaction-Refines :
          (r : Result T)
          → db.begin_tx d ≡ r
          → let c = in_transaction db s id_text cfg id expected es d r in
            Refines cfg.tenant_id id expected es (log d) c.result (log c.store) c.events
      in_transaction-Refines (err x) h = inl refl
      in_transaction-Refines (ok t) h =
          let q = tenant_context id_text cfg in
          let o = context_set db s id_text cfg id expected es d (set_context db s q t) in
          let rb = db.tx_rollback o.tx o.database in
          let good = HasGrown cfg.tenant_id id expected es (log d) (log o.database) o.events in
          subst
            (λ l.
              Refines cfg.tenant_id id expected es (log d)
                (with_rollback "pgstore: rollback" (rollback_result o.done rb.0) o.result) l
                o.events)
            (sym (rollback_state-eq log o.done o.database rb.1 (table.rolls_back o.tx o.database)))
            (Ends-Leads ((log o.database ≡ log d) ⊎ good) good "pgstore: rollback" rb.0 o.result
              o.done
              (context_set-EndsWell (set_context db s q t)
                (set_context-seen t q refl ∙ table.begins d t h)))

      tracking_checked-Refines :
          (r : Result (Unit {0}))
          → let c = tracking_checked db s id_text cfg id expected es d r in
            Refines cfg.tenant_id id expected es (log d) c.result (log c.store) c.events
      tracking_checked-Refines (err x) = inl refl
      tracking_checked-Refines (ok _) = in_transaction-Refines (db.begin_tx d) refl

-- Commit is atomic and refines a log, over any database that keeps the table of events. A Commit that
-- returns no error found the greatest version of the aggregate, among the events of the tenant if it
-- has one, to be the expected one, and the log has grown at its end by what the rows keep of the events
-- that it gives back: those of the caller, stamped with the tenant, under the GlobalIDs they got. One
-- that returns an error, at whatever statement it failed, has left the log as it was, or all of that
-- holds too: never a part of the batch. The batch is not empty. The database loses and adds nothing
-- on a rollback, and a failed COMMIT has committed the whole transaction or nothing.
pub commit-Refines :
    {D : Type 0} {T : Type 0} (db : Database D T) (s : Store) (id_text : IdText)
    (kept : DomainEvent → DomainEvent) (log : D → List DomainEvent) (seen : T → List DomainEvent)
    (e : DomainEvent) (es : List DomainEvent) (expected : ℕ) (opts : List StoreOption) (d : D)
    → IsTable db s id_text kept log seen
    → let cfg = resolve_store_config opts in
      let c = commit db s id_text (e ∷ es) expected opts d in
      Refines db s id_text kept log seen cfg.tenant_id e.aggregate_id expected
        (map (stamp_event cfg.tenant_id) (e ∷ es))
        (log d)
        c.result
        (log c.store)
        c.events
unfolding commit
commit-Refines db s id_text kept log seen e es expected opts d table =
    let cfg = resolve_store_config opts in
    let stamped = map (stamp_event cfg.tenant_id) (e ∷ es) in
    tracking_checked-Refines db s id_text kept log seen cfg e.aggregate_id expected stamped d table
      (check_tracking s stamped)
