-- ===== src/ErasureLedger.antt =====
-- es/erasure_ledger.go and es/memstore/erasure_ledger.go: the hash chain of erasures.
pub mod Chain
pub mod Evidence
use go_es_light.Base.{
  ℕ, zero, suc, ◌+◌, ◌-◌, ◌/◌, ◌%◌, ◌^◌, List, [], ◌∷◌, ◌++◌, Option, none, some, ◌==◌, list_eq,
  nat_eq, last?, if◌then◌else◌, u64_mod, be_bytes, Bytes, Result, ok, err, Error,
}

-- type ShredRecord struct. A [32]byte is its bytes; times are nanoseconds since year 1.
pub record ShredRecord : Type 0 where
  pub pii_id : ℕ
  pub erased_at : ℕ
  pub origin_global_id : ℕ
  pub prev_hash : Bytes
  pub hash : Bytes

-- uint64(t.Truncate(time.Second).UTC().Unix()): seconds since 1970, which year 1 precedes by
-- 62135596800 seconds.
unfoldable pub unix_seconds : ℕ → ℕ
unix_seconds t = ((t - t % 1000000000) / 1000000000 + u64_mod - 62135596800) % u64_mod

abbrev zeros : ℕ → Bytes
zeros zero = []
zeros (suc n) = 0 ∷ zeros n

-- var prev [32]byte
abbrev pub zero_hash : Bytes
zero_hash = zeros 32

-- The 64 bytes that ShredRecordHash hashes.
unfoldable pub hash_input : Bytes → ℕ → ℕ → ℕ → Bytes
hash_input prev pii_id erased_at origin =
    prev ++ (be_bytes 16 pii_id ++ (be_bytes 8 (unix_seconds erased_at) ++ be_bytes 8 origin))

-- The hash of the last record, from that of the record before the list.
abbrev pub tail_hash : Bytes → List ShredRecord → Bytes
tail_hash prev [] = prev
tail_hash prev (r ∷ rs) = tail_hash r.hash rs

-- var prev [32]byte; if n := len(l.records); n > 0 { prev = l.records[n-1].Hash }
abbrev pub tail_of : Option ShredRecord → Bytes
tail_of none = zero_hash
tail_of (some r) = r.hash

-- The hash function, sha256.Sum256, is a parameter.
module _ (sha : Bytes → Bytes) where
  -- ShredRecordHash
  unfoldable pub shred_record_hash : Bytes → ℕ → ℕ → ℕ → Bytes
  shred_record_hash prev pii_id erased_at origin = sha (hash_input prev pii_id erased_at origin)

  abbrev pub record_hash : Bytes → ShredRecord → Bytes
  record_hash prev r = shred_record_hash prev r.pii_id r.erased_at r.origin_global_id

  -- The loop of CheckShredChain, at record i.
  unfoldable pub check_from : ℕ → Bytes → List ShredRecord → Result (Unit {0})
  check_from i prev [] = ok tt
  check_from i prev (r ∷ rs) =
      let rest = check_from (i + 1) r.hash rs in
      if r.prev_hash == prev
      then (if r.hash == record_hash prev r
          then rest
          else err (Error.at_index "es: pii: shred chain breaks at record: Hash mismatch" i))
      else err (Error.at_index "es: pii: shred chain breaks at record: PrevHash mismatch" i)

  -- CheckShredChain
  unfoldable pub check_shred_chain : List ShredRecord → Result (Unit {0})
  unfolding check_from
  check_shred_chain rs = check_from 0 zero_hash rs

  abbrev pub linked : Bytes → ℕ → ℕ → ℕ → ShredRecord
  linked prev pii_id erased_at origin = record {
    pii_id = pii_id;
    erased_at = erased_at;
    origin_global_id = origin;
    prev_hash = prev;
    hash = shred_record_hash prev pii_id erased_at origin;
  }

  -- memstore's ErasureLedger.Append, on the records of the ledger
  unfoldable pub append : ℕ → ℕ → ℕ → List ShredRecord → List ShredRecord
  append pii_id erased_at origin rs = rs ++ linked (tail_of (last? rs)) pii_id erased_at origin ∷ []
