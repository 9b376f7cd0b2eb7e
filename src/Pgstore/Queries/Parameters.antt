-- ===== src/Pgstore/Queries/Parameters.antt =====
-- The parameters $1, $2, ... in the statements of es/pgstore.
use go_es_light.Base.{
  ℕ, zero, suc, ◌+◌, ◌-◌, ◌*◌, ◌/◌, ◌%◌, ◌<◌, ◌≡◌, refl, ap, ◌∙◌, Bool, true, false, Bool-cases,
  inl, inr, Option, none, some, List, [], ◌∷◌, ◌++◌, length, ltb, leb, ◌==◌, ◌&&◌, nat_eq,
  if◌then◌else◌, Bytes, arith, map,
}
use go_es_light.Int.{ℤ}
use go_es_light.Event.{DomainEvent}
use go_es_light.StoreConfig.{StoreConfig}
use go_es_light.ErasureLedger.{ShredRecord}
use go_es_light.Pgstore.{Store, Statement}
use go_es_light.Pgstore.Database.{statement, select_checkpoint, upsert_checkpoint}
use go_es_light.Pgstore.Transaction.{IdText, tenant_context, lock_statement}
use go_es_light.Pgstore.Keys.{select_key, upsert_key, delete_key, select_subjects}
use go_es_light.Pgstore.Shreds.{lock_shreds, select_tail, insert_shred, select_shreds}
use go_es_light.Pgstore.Advisory.{try_statement, unlock_statement}
use go_es_light.Pgstore.Queries.{
  itoa, digits, placeholder, join, columns, insert_columns, insert_values, insert_query, load_query,
  fetch_after_query, fetch_by_pii_id_query, version_query,
}

abbrev is_digit : ℕ → Bool
is_digit c = leb 48 c && leb c 57

-- Outside a parameter, or inside one that reads n so far: where the next byte leads, and the
-- parameter that it ends.
abbrev read_byte : Option ℕ → ℕ → Option ℕ × List ℕ
read_byte none c = (if c == 36 then some 0 else none, [])
read_byte (some n) c =
    if is_digit c
    then (some (n * 10 + (c - 48)), [])
    else (if c == 36 then some 0 else none, n ∷ [])

abbrev scan : Option ℕ → Bytes → List ℕ
scan none [] = []
scan (some n) [] = n ∷ []
scan st (c ∷ cs) = let (next, ended) = read_byte st c in ended ++ scan next cs

-- The numbers behind the dollar signs of a text, in order.
unfoldable pub parameters : Bytes → List ℕ
parameters = scan none

-- from, from + 1, and so on, `n` numbers
abbrev pub count : ℕ → ℕ → List ℕ
count from zero = []
count from (suc n) = from ∷ count (from + 1) n

-- The parameters of each of the statements are $1, $2, ..., one for each of its arguments.
abbrev pub AreNumbered : List Statement → Type 0
AreNumbered qs = map (λ q. parameters q.text) qs ≡ map (λ q. count 1 (length q.args)) qs

abbrev value : ℕ → Bytes → ℕ
value n [] = n
value n (c ∷ cs) = value (n * 10 + (c - 48)) cs

value-digits : (fuel n : ℕ) (out : Bytes) → n < fuel → value 0 (digits fuel n out) ≡ value n out
value-digits zero n out h = absurd (omega arith)
value-digits (suc fuel) n out h = elim (Bool-cases (ltb n 10)) [
  | inl small ↦
      rw small (let e : 0 * 10 + (48 + n - 48) ≡ n = omega arith in ap (λ k. value k out) e)
  | inr large ↦
      let below : n / 10 < fuel = ground arith in
      let e : (n / 10) * 10 + (48 + n % 10 - 48) ≡ n = omega arith in
      rw large (value-digits fuel (n / 10) ((48 + n % 10) ∷ out) below ∙ ap (λ k. value k out) e)
]

-- Itoa gives the decimal digits of its number: they read as the number again.
value-itoa : (n : ℕ) → value 0 (itoa n) ≡ n
value-itoa n = value-digits (suc n) n [] (omega arith)

-- The statement that sets the tenant, if there is one.
abbrev context_statements : Option Statement → List Statement
context_statements none = []
context_statements (some q) = q ∷ []

-- The statements on the events: those of Commit, and those of the three reads.
abbrev pub event_statements :
    IdText → Store → StoreConfig → ℕ → ℕ → ℤ → DomainEvent → List Statement
event_statements id_text s cfg id last_id limit e =
    version_query cfg id
    ∷ statement (insert_query s) (insert_values s e)
    ∷ load_query s cfg id
    ∷ fetch_after_query s cfg last_id limit
    ∷ fetch_by_pii_id_query s cfg id
    ∷ lock_statement id_text id
    ∷ context_statements (tenant_context id_text cfg)

-- The statements on checkpoints, keys, erasures and advisory locks.
abbrev pub table_statements : Bytes → ℕ → ℕ → Bytes → ShredRecord → List Statement
table_statements name last_id p key r =
    select_checkpoint name
    ∷ upsert_checkpoint name last_id
    ∷ select_key p
    ∷ upsert_key p key
    ∷ delete_key p
    ∷ select_subjects
    ∷ lock_shreds
    ∷ select_tail
    ∷ insert_shred r
    ∷ select_shreds
    ∷ try_statement name
    ∷ unlock_statement name
    ∷ []

module _ (id_text : IdText) (id last_id : ℕ) (limit : ℤ) (e : DomainEvent) where
  numbered_lem :
      (actor pii b : Bool) (t : Option ℕ)
      → AreNumbered (
          event_statements id_text
            (record { actor_tracking = actor; pii_tracking = pii })
            (record { tenant_id = t; all_tenants = b })
            id
            last_id
            limit
            e)
  unfolding load_query fetch_after_query fetch_by_pii_id_query version_query insert_query
      insert_values parameters placeholder join columns insert_columns
  numbered_lem true true true none = refl
  numbered_lem true true false none = refl
  numbered_lem true true b (some t) = refl
  numbered_lem true false true none = refl
  numbered_lem true false false none = refl
  numbered_lem true false b (some t) = refl
  numbered_lem false true true none = refl
  numbered_lem false true false none = refl
  numbered_lem false true b (some t) = refl
  numbered_lem false false true none = refl
  numbered_lem false false false none = refl
  numbered_lem false false b (some t) = refl

-- The text of every statement that es/pgstore sends, but for those that set up tables and roles, and its
-- arguments stay in lockstep, whatever the store tracks and whatever the options of the call: reading
-- the text from left to right, its parameters are $1, $2, and so on, each once, up to the number of
-- the arguments that go with it.
pub statements-AreNumbered :
    (id_text : IdText) (s : Store) (cfg : StoreConfig) (id last_id : ℕ) (limit : ℤ)
    (e : DomainEvent) (name key : Bytes) (r : ShredRecord)
    → AreNumbered (event_statements id_text s cfg id last_id limit e)
      × AreNumbered (table_statements name last_id id key r)
unfolding parameters
statements-AreNumbered id_text s cfg id last_id limit e name key r = (
  numbered_lem id_text id last_id limit e s.actor_tracking s.pii_tracking cfg.all_tenants
      cfg.tenant_id,
  refl,
)
