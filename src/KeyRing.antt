-- ===== src/KeyRing.antt =====
-- es/pii.go: the interface KeyRing; es/memstore/keyring.go: its in-memory implementation.
use go_es_light.Base.{
  ℕ, List, Option, some, Map, lookup, insert, delete, keys, nat_eq, Bytes, Result, ok,
}

-- interface KeyRing, and KeyRingLister where the implementation has it. A nil key is `none`.
pub record KeyRing (K : Type 0) : Type 0 where
  pub get : ℕ → K → Result (Option Bytes)
  pub put : ℕ → Bytes → K → Result (Unit {0}) × K
  pub forget : ℕ → K → Result (Unit {0}) × K
  pub subjects : Option (K → Result (List ℕ))

-- memstore's KeyRing: the map of keys.
abbrev pub MemoryKeys : Type 0
MemoryKeys = Map ℕ Bytes

unfoldable pub get : ℕ → MemoryKeys → Result (Option Bytes)
get pii_id r = ok (lookup pii_id r)

unfoldable pub put : ℕ → Bytes → MemoryKeys → Result (Unit {0}) × MemoryKeys
put pii_id key r = (ok tt, insert pii_id key r)

unfoldable pub forget : ℕ → MemoryKeys → Result (Unit {0}) × MemoryKeys
forget pii_id r = (ok tt, delete pii_id r)

unfoldable pub subjects : MemoryKeys → Result (List ℕ)
subjects r = ok (keys r)

abbrev pub memory_keys : KeyRing MemoryKeys
memory_keys = record { get = get; put = put; forget = forget; subjects = some subjects }
