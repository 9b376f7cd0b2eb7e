-- ===== src/Event.antt =====
-- es/event.go: the envelope of a domain event.
use go_es_light.Base.{ℕ, Bool, Option, Bytes, Result, ok, err, Error, if◌then◌else◌}
use go_es_light.Int.{ℤ}

-- type DomainEvent struct. Identifiers are 128-bit numbers, times are nanoseconds since year 1.
pub record DomainEvent : Type 0 where
  pub global_id : ℕ
  pub id : ℕ
  pub tenant_id : ℕ
  pub aggregate_id : ℕ
  pub aggregate_version : ℕ
  pub version : ℤ
  pub name : Bytes
  pub payload : Bytes
  pub metadata : Bytes
  pub actor_id : Option ℕ
  pub actor_type : Option Bytes
  pub pii_id : Option ℕ
  pub pii_fields : Bytes
  pub pii_unrecoverable : Bool
  pub occurred_at : ℕ

-- DomainEvent.CheckPiiOpen
unfoldable pub check_pii_open : DomainEvent → Result (Unit {0})
check_pii_open e = if e.pii_unrecoverable then err Error.pii_unrecoverable else ok tt
