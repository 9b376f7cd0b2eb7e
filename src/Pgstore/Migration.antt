-- ===== src/Pgstore/Migration.antt =====
-- Store.Migrate of es/pgstore/eventstore.go: the statements that it executes. A text that spans lines in
-- the code has one space for each run of white space.
use go_es_light.Base.{
  Bool, true, false, List, [], ◌∷◌, ◌++◌, if◌then◌else◌, Bytes, bytes, Result, ok, err, Error,
}
use go_es_light.Pgstore.{Store}
use go_es_light.Pgstore.Database.{Database, statement}

-- type migrateConfig struct, and type MigrateOption func(*migrateConfig)
pub record MigrateConfig : Type 0 where
  pub tenant_isolation : Bool

abbrev pub MigrateOption : Type 0
MigrateOption = MigrateConfig → MigrateConfig

unfoldable pub with_tenant_isolation : MigrateOption
with_tenant_isolation c = record c { tenant_isolation = true }

unfoldable pub apply_migrate_options : List MigrateOption → MigrateConfig → MigrateConfig
apply_migrate_options [] c = c
apply_migrate_options (opt ∷ opts) c = apply_migrate_options opts (opt c)

-- The statements for every store
unfoldable pub base_statements : List Bytes
base_statements =
    (bytes "CREATE TABLE IF NOT EXISTS events ( global_id BIGSERIAL PRIMARY KEY, id UUID "
      ++ bytes "NOT NULL, aggregate_id UUID NOT NULL, aggregate_version BIGINT NOT NULL, "
      ++ bytes "version INT NOT NULL DEFAULT 1, name TEXT NOT NULL, payload JSONB NOT NULL, "
      ++ bytes "occurred_at TIMESTAMPTZ NOT NULL DEFAULT now(), UNIQUE (aggregate_id, "
      ++ bytes "aggregate_version) )")
    ∷ (bytes "CREATE TABLE IF NOT EXISTS checkpoints ( name TEXT PRIMARY KEY, last_global_id "
        ++ bytes "BIGINT NOT NULL DEFAULT 0 )")
    ∷ (bytes "CREATE OR REPLACE FUNCTION notify_events() RETURNS trigger AS $$ BEGIN PERFORM "
        ++ bytes "pg_notify('events_channel', NEW.global_id::text); RETURN NEW; END; $$ LANGUAGE "
        ++ bytes "plpgsql")
    ∷ bytes "DROP TRIGGER IF EXISTS events_notify ON events"
    ∷ (bytes "CREATE TRIGGER events_notify AFTER INSERT ON events FOR EACH ROW EXECUTE "
        ++ bytes "FUNCTION notify_events()")
    ∷ (bytes "ALTER TABLE events ADD COLUMN IF NOT EXISTS tenant_id UUID NOT NULL DEFAULT "
        ++ bytes "'00000000-0000-0000-0000-000000000000'")
    ∷ bytes "ALTER TABLE events ADD COLUMN IF NOT EXISTS metadata JSONB"
    ∷ (bytes "DO $$ BEGIN IF NOT EXISTS (SELECT 1 FROM pg_constraint WHERE conname = "
        ++ bytes "'events_tenant_version_unique') THEN ALTER TABLE events ADD CONSTRAINT "
        ++ bytes "events_tenant_version_unique UNIQUE (tenant_id, aggregate_id, "
        ++ bytes "aggregate_version); END IF; END $$")
    ∷ (bytes "CREATE INDEX IF NOT EXISTS events_tenant_global_idx ON events (tenant_id, "
        ++ bytes "global_id)")
    ∷ bytes "DROP INDEX IF EXISTS events_aggregate_id_idx"
    ∷ bytes "DROP INDEX IF EXISTS events_tenant_aggregate_idx"
    ∷ []

-- if s.actorTracking, if s.piiTracking and if cfg.tenantIsolation
unfoldable pub actor_statements : List Bytes
actor_statements =
    bytes "ALTER TABLE events ADD COLUMN IF NOT EXISTS actor_id UUID"
    ∷ bytes "ALTER TABLE events ADD COLUMN IF NOT EXISTS actor_type TEXT"
    ∷ []

unfoldable pub pii_statements : List Bytes
pii_statements =
    bytes "ALTER TABLE events ADD COLUMN IF NOT EXISTS pii_id UUID"
    ∷ bytes "ALTER TABLE events ADD COLUMN IF NOT EXISTS pii_fields JSONB"
    ∷ bytes "CREATE INDEX IF NOT EXISTS events_pii_id_idx ON events (pii_id)"
    ∷ []

unfoldable pub isolation_statements : List Bytes
isolation_statements =
    bytes "ALTER TABLE events ENABLE ROW LEVEL SECURITY"
    ∷ bytes "ALTER TABLE events FORCE ROW LEVEL SECURITY"
    ∷ bytes "DROP POLICY IF EXISTS events_tenant_isolation ON events"
    ∷ (bytes "CREATE POLICY events_tenant_isolation ON events USING ( "
        ++ bytes "current_setting('app.tenant_id', true) IS NULL OR "
        ++ bytes "current_setting('app.tenant_id', true) = '' OR tenant_id = "
        ++ bytes "current_setting('app.tenant_id', true)::uuid OR tenant_id = "
        ++ bytes "'00000000-0000-0000-0000-000000000000' )")
    ∷ []

-- stmts
unfoldable pub migrate_statements : Store → MigrateConfig → List Bytes
unfolding base_statements actor_statements pii_statements isolation_statements
migrate_statements s c =
    base_statements
    ++ (if s.actor_tracking then actor_statements else [])
    ++ (if s.pii_tracking then pii_statements else [])
    ++ (if c.tenant_isolation then isolation_statements else [])

module _ {D : Type 0} {T : Type 0} (db : Database D T) where
  abbrev pub executed : (D → Result (Unit {0}) × D) → Result (Unit {0}) × D → Result (Unit {0}) × D
  executed rest (err x, d) = (err (Error.wrap "pgstore: migrate" x), d)
  executed rest (ok _, d) = rest d

  -- The loop over stmts
  unfoldable pub run_statements : List Bytes → D → Result (Unit {0}) × D
  run_statements [] d = (ok tt, d)
  run_statements (text ∷ texts) d = executed (run_statements texts) (db.exec (statement text []) d)

  -- Store.Migrate
  unfoldable pub migrate : Store → List MigrateOption → D → Result (Unit {0}) × D
  unfolding migrate_statements apply_migrate_options run_statements
  migrate s opts d =
      run_statements
        (migrate_statements s (apply_migrate_options opts (record { tenant_isolation = false }))) d
