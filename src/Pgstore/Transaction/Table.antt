-- ===== src/Pgstore/Transaction/Table.antt =====
-- What a database that keeps the events table does with the statements of es/pgstore/eventstore.go, and
-- what the loop of inserts makes of it.
use go_es_light.Base.{
  ℕ, ◌≡◌, refl, ap, sym, ◌∙◌, Bool, Option, none, some, List, [], ◌∷◌, ◌++◌, append-nil,
  append_assoc, map, filter, ltb, ◌==◌, ◌&&◌, nat_eq, Result, ok, err, Error, ◌⊎◌, if◌then◌else◌,
}
use mathlib.Core.Path.{subst}
use go_es_light.Event.{DomainEvent}
use go_es_light.StoreConfig.{StoreConfig}
use go_es_light.Pgstore.{Value, Store, Statement}
use go_es_light.Pgstore.Queries.{version_query, insert_query, insert_values}
use go_es_light.Pgstore.Database.{Database, statement}
use go_es_light.Pgstore.Transaction.{
  IdText, tenant_context, lock_statement, Inserted, insert_round, insert_events,
}

-- COALESCE(MAX(aggregate_version), 0)
abbrev pub max_version : List DomainEvent → ℕ
max_version [] = 0
max_version (e ∷ es) =
    let rest = max_version es in if ltb rest e.aggregate_version then e.aggregate_version else rest

-- aggregate_id = $1, and tenant_id = $2 with a tenant
abbrev pub in_scope : Option ℕ → ℕ → DomainEvent → Bool
in_scope none id e = e.aggregate_id == id
in_scope (some t) id e = (e.aggregate_id == id) && (e.tenant_id == t)

abbrev pub numbered_as : ℕ → DomainEvent → DomainEvent
numbered_as g e = record e { global_id = g }

-- The same events, but for their GlobalIDs.
abbrev pub SameEvents : List DomainEvent → List DomainEvent → Type 0
SameEvents xs ys = map (numbered_as 0) xs ≡ map (numbered_as 0) ys

module _ {D : Type 0} {T : Type 0} (db : Database D T) (s : Store) (id_text : IdText)
    (kept : DomainEvent → DomainEvent) where
  -- The database keeps the table of events: `log` is what it holds, `seen` what a transaction sees,
  -- `kept` what a row keeps of an event. A tx.Commit that returns an error has committed nothing, or
  -- all with its answer lost.
  pub record IsTable (log : D → List DomainEvent) (seen : T → List DomainEvent) : Type 0 where
    pub begins : (d : D) (t : T) → db.begin_tx d ≡ ok t → seen t ≡ log d
    pub sets_context :
        (cfg : StoreConfig) (q : Statement) (t : T)
        → tenant_context id_text cfg ≡ some q
        → seen (db.tx_exec q t).1 ≡ seen t
    pub locks : (id : ℕ) (t : T) → seen (db.tx_exec (lock_statement id_text id) t).1 ≡ seen t
    pub reads_version :
        (cfg : StoreConfig) (id : ℕ) (t t' : T) (row : List Value)
        → db.tx_query_row (version_query cfg id) t ≡ (ok row, t')
        → (row ≡ Value.bigint (max_version (filter (in_scope cfg.tenant_id id) (seen t))) ∷ [])
          × (seen t' ≡ seen t)
    pub inserts :
        (e : DomainEvent) (t t' : T) (row : List Value)
        → db.tx_query_row (statement (insert_query s) (insert_values s e)) t ≡ (ok row, t')
        → (g : ℕ) × (row ≡ Value.bigint g ∷ []) × (seen t' ≡ seen t ++ kept (numbered_as g e) ∷ [])
    pub commits : (t : T) (d d' : D) → db.tx_commit t d ≡ (ok tt, d') → log d' ≡ seen t
    pub refuses :
        (t : T) (d d' : D) (x : Error)
        → db.tx_commit t d ≡ (err x, d')
        → (log d' ≡ log d) ⊎ (log d' ≡ seen t)
    pub rolls_back : (t : T) (d : D) → log (db.tx_rollback t d).1 ≡ log d

  module _ (log : D → List DomainEvent) (seen : T → List DomainEvent) where
    -- What the loop of inserts has done, if it returned no error.
    abbrev pub Appended : List DomainEvent → T → Inserted T → Type 0
    Appended es t (err x, es', t') = Unit
    Appended es t (ok _, es', t') = (seen t' ≡ seen t ++ map kept es') × SameEvents es' es

    insert_scanned-Appended :
        (e : DomainEvent) (es : List DomainEvent) (t t' : T) (g : ℕ) (r : Inserted T)
        → seen t' ≡ seen t ++ kept (numbered_as g e) ∷ []
        → Appended es t' r
        → Appended (e ∷ es) t (r.0, numbered_as g e ∷ r.1, r.2)
    insert_scanned-Appended e es t t' g (err x, es', u) h a = tt
    insert_scanned-Appended e es t t' g (ok _, es', u) h (grown, same) = (
      grown
          ∙ ap (λ l. l ++ map kept es') h
          ∙ append_assoc (seen t) (kept (numbered_as g e) ∷ []) (map kept es'),
      ap (◌∷◌ (numbered_as 0 e)) same,
    )

    insert_round-Appended :
        (e : DomainEvent) (es : List DomainEvent) (rest : T → Inserted T) (t : T)
        (p : Result (List Value) × T)
        → IsTable log seen
        → db.tx_query_row (statement (insert_query s) (insert_values s e)) t ≡ p
        → ((u : T) → Appended es u (rest u))
        → Appended (e ∷ es) t (insert_round e es rest p)
    insert_round-Appended e es rest t (err x, t') table h a = tt
    insert_round-Appended e es rest t (ok row, t') table h a =
        let (g, number, grown) = table.inserts e t t' row h in
        subst (λ r. Appended (e ∷ es) t (insert_round e es rest (ok r, t'))) (sym number)
          (insert_scanned-Appended e es t t' g (rest t') grown (a t'))

    pub insert_events-Appended :
        (es : List DomainEvent) (t : T) → IsTable log seen → Appended es t (insert_events db s es t)
    unfolding insert_events
    insert_events-Appended [] t table = (sym (append-nil (seen t)), refl)
    insert_events-Appended (e ∷ es) t table =
        insert_round-Appended e es (insert_events db s es) t
          (db.tx_query_row (statement (insert_query s) (insert_values s e)) t) table refl
          (λ u. insert_events-Appended es u table)
