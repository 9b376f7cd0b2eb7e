-- ===== src/Pgstore/Queries.antt =====
-- The statements of es/pgstore/eventstore.go and the arguments that go with them.
pub mod Parameters
use go_es_light.Base.{
  ℕ, zero, suc, ◌+◌, ◌/◌, ◌%◌, Bool, true, false, Option, none, some, List, [], ◌∷◌, ◌++◌, map,
  length, ltb, if◌then◌else◌, Bytes, bytes, Result, ok, err, Error, ◌>>=◌,
}
use go_es_light.Int.{ℤ}
use go_es_light.Event.{DomainEvent}
use go_es_light.StoreConfig.{StoreConfig, global_tenant_id}
use go_es_light.Pgstore.{Value, Store, Statement}

-- strconv.Itoa, of a number: its decimal digits, least significant last. `n` rounds are enough for n.
abbrev digits : ℕ → ℕ → Bytes → Bytes
digits zero n out = out
digits (suc fuel) n out =
    let rest = digits fuel (n / 10) ((48 + n % 10) ∷ out) in
    if ltb n 10 then (48 + n) ∷ out else rest

abbrev pub itoa : ℕ → Bytes
itoa n = digits (suc n) n []

-- placeholder
unfoldable pub placeholder : ℕ → Bytes
placeholder n = bytes "$" ++ itoa n

-- strings.Join
unfoldable pub join : Bytes → List Bytes → Bytes
join sep [] = []
join sep (x ∷ []) = x
join sep (x ∷ y ∷ xs) = x ++ sep ++ join sep (y ∷ xs)

-- Store.columns
unfoldable pub columns : Store → List Bytes
columns s =
    (bytes "global_id"
      ∷ bytes "id"
      ∷ bytes "tenant_id"
      ∷ bytes "aggregate_id"
      ∷ bytes "aggregate_version"
      ∷ bytes "version"
      ∷ bytes "name"
      ∷ bytes "payload"
      ∷ bytes "metadata"
      ∷ [])
    ++ (if s.actor_tracking then bytes "actor_id" ∷ bytes "actor_type" ∷ [] else [])
    ++ (if s.pii_tracking then bytes "pii_id" ∷ bytes "pii_fields" ∷ [] else [])
    ++ bytes "occurred_at" ∷ []

-- insertColumns of Commit
unfoldable pub insert_columns : Store → List Bytes
insert_columns s =
    (bytes "id"
      ∷ bytes "tenant_id"
      ∷ bytes "aggregate_id"
      ∷ bytes "aggregate_version"
      ∷ bytes "version"
      ∷ bytes "name"
      ∷ bytes "payload"
      ∷ bytes "metadata"
      ∷ [])
    ++ (if s.actor_tracking then bytes "actor_id" ∷ bytes "actor_type" ∷ [] else [])
    ++ (if s.pii_tracking then bytes "pii_id" ∷ bytes "pii_fields" ∷ [] else [])
    ++ bytes "occurred_at" ∷ []

-- nullRawMessage, nullUUID and nullString
unfoldable pub null_raw_message : Bytes → Value
null_raw_message [] = Value.null
null_raw_message (b ∷ bs) = Value.bytea (b ∷ bs)

unfoldable pub null_uuid : Option ℕ → Value
null_uuid none = Value.null
null_uuid (some id) = Value.uuid id

unfoldable pub null_string : Option Bytes → Value
null_string none = Value.null
null_string (some s) = Value.string s

-- values of Commit's loop
unfoldable pub insert_values : Store → DomainEvent → List Value
insert_values s e =
    (Value.uuid e.id
      ∷ Value.uuid e.tenant_id
      ∷ Value.uuid e.aggregate_id
      ∷ Value.bigint e.aggregate_version
      ∷ Value.integer e.version
      ∷ Value.string e.name
      ∷ Value.bytea e.payload
      ∷ null_raw_message e.metadata
      ∷ [])
    ++ (if s.actor_tracking then null_uuid e.actor_id ∷ null_string e.actor_type ∷ [] else [])
    ++ (if s.pii_tracking then null_uuid e.pii_id ∷ null_raw_message e.pii_fields ∷ [] else [])
    ++ Value.timestamp e.occurred_at ∷ []

-- placeholder(i + 1), for each i below n, from k on
abbrev pub placeholders : ℕ → ℕ → List Bytes
placeholders k zero = []
placeholders k (suc n) = placeholder (k + 1) ∷ placeholders (k + 1) n

unfoldable pub insert_query : Store → Bytes
unfolding placeholder join insert_columns
insert_query s =
    bytes "INSERT INTO events ("
    ++ join (bytes ", ") (insert_columns s)
    ++ bytes ") VALUES ("
    ++ join (bytes ", ") (placeholders 0 (length (insert_columns s)))
    ++ bytes ") RETURNING global_id"

-- The conditions and the arguments of a read, which a tenant adds to.
abbrev pub scoped : Option ℕ → List Bytes → List Value → List Bytes × List Value
scoped none conditions args = (conditions, args)
scoped (some t) conditions args = (
  conditions
      ++ (bytes "tenant_id IN ("
          ++ placeholder (length args + 1)
          ++ bytes ", "
          ++ placeholder (length args + 2)
          ++ bytes ")")
        ∷ [],
  args ++ Value.uuid t ∷ Value.uuid global_tenant_id ∷ [],
)

-- "SELECT " + columns + " FROM events WHERE " + conditions
abbrev select_where : Store → List Bytes → Bytes
select_where s conditions =
    bytes "SELECT "
    ++ join (bytes ", ") (columns s)
    ++ bytes " FROM events WHERE "
    ++ join (bytes " AND ") conditions

-- The statements of Load, FetchAfter and FetchByPiiID
unfoldable pub load_query : Store → StoreConfig → ℕ → Statement
unfolding placeholder join columns
load_query s cfg id =
    let (conditions, args) =
      scoped cfg.tenant_id (bytes "aggregate_id = $1" ∷ []) (Value.uuid id ∷ []) in
    record {
      text = select_where s conditions ++ bytes " ORDER BY aggregate_version ASC";
      args = args;
    }

unfoldable pub fetch_after_query : Store → StoreConfig → ℕ → ℤ → Statement
unfolding placeholder join columns
fetch_after_query s cfg last_id limit =
    let (conditions, args) =
      scoped cfg.tenant_id (bytes "global_id > $1" ∷ []) (Value.bigint last_id ∷ []) in
    let args' = args ++ Value.integer limit ∷ [] in
    record {
      text =
          select_where s conditions
          ++ bytes " ORDER BY global_id ASC LIMIT "
          ++ placeholder (length args');
      args = args';
    }

unfoldable pub fetch_by_pii_id_query : Store → StoreConfig → ℕ → Statement
unfolding placeholder join columns
fetch_by_pii_id_query s cfg pii_id =
    let (conditions, args) =
      scoped cfg.tenant_id (bytes "pii_id = $1" ∷ []) (Value.uuid pii_id ∷ []) in
    record { text = select_where s conditions ++ bytes " ORDER BY global_id ASC"; args = args }

-- The condition of Commit's version query on the tenant
abbrev version_scope : Option ℕ → List Bytes → List Value → List Bytes × List Value
version_scope none conditions args = (conditions, args)
version_scope (some t) conditions args = (
  conditions ++ (bytes "tenant_id = " ++ placeholder (length args + 1)) ∷ [],
  args ++ Value.uuid t ∷ [],
)

-- versionQuery of Commit
unfoldable pub version_query : StoreConfig → ℕ → Statement
unfolding placeholder join
version_query cfg aggregate_id =
    let (conditions, args) =
      version_scope cfg.tenant_id (bytes "aggregate_id = $1" ∷ []) (Value.uuid aggregate_id ∷ []) in
    record {
      text =
          bytes "SELECT COALESCE(MAX(aggregate_version), 0) FROM events WHERE "
          ++ join (bytes " AND ") conditions;
      args = args;
    }

-- e.ActorID != nil || e.ActorType != nil, and e.PiiID != nil || len(e.PiiFields) > 0
abbrev pub carries_actor : Option ℕ → Option Bytes → Bool
carries_actor none none = false
carries_actor _ _ = true

abbrev pub carries_pii : Option ℕ → Bytes → Bool
carries_pii none [] = false
carries_pii _ _ = true

-- The loops of Commit over the events, without the options of the store
abbrev pub check_actors : List DomainEvent → Result (Unit {0})
check_actors [] = ok tt
check_actors (e ∷ es) =
    let rest = check_actors es in
    if carries_actor e.actor_id e.actor_type
    then err (
        Error.text
          "pgstore: event carries an actor but this Store wasn't built with WithActorTracking")
    else rest

abbrev pub check_piis : List DomainEvent → Result (Unit {0})
check_piis [] = ok tt
check_piis (e ∷ es) =
    let rest = check_piis es in
    if carries_pii e.pii_id e.pii_fields
    then err (
        Error.text
          "pgstore: event carries a PiiID but this Store wasn't built with WithPiiTracking")
    else rest

unfoldable pub check_tracking : Store → List DomainEvent → Result (Unit {0})
check_tracking s events = (if s.actor_tracking then ok tt else check_actors events) >>= λ _.
    if s.pii_tracking then ok tt else check_piis events
