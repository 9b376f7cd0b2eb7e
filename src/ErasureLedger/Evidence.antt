-- ===== src/ErasureLedger/Evidence.antt =====
-- The ledger of es/erasure_ledger.go as evidence: its last hash fixes all that came before.
use go_es_light.Base.{
  ℕ, ◌+◌, ◌≡◌, sym, ◌∙◌, true, List, [], ◌∷◌, ◌==◌, list_eq, nat_eq, eq_of_beq, length, All, Bytes,
  ok, arith,
}
use go_es_light.ErasureLedger.{
  ShredRecord, unix_seconds, zero_hash, hash_input, shred_record_hash, record_hash, check_from,
  check_shred_chain, tail_hash,
}
use go_es_light.ErasureLedger.Chain.{InRange, hash_input-injective}

-- The hash function has no collisions.
abbrev pub IsCollisionFree : (Bytes → Bytes) → Type 0
IsCollisionFree sha = (x y : Bytes) → sha x ≡ sha y → x ≡ y

abbrev pub RecordInRange : ShredRecord → Type 0
RecordInRange r = InRange r.pii_id r.origin_global_id

-- Two records agree, the time of erasure to the second.
pub record SameRecord (r r' : ShredRecord) : Type 0 where
  pub pii_id : r.pii_id ≡ r'.pii_id
  pub second : unix_seconds r.erased_at ≡ unix_seconds r'.erased_at
  pub origin : r.origin_global_id ≡ r'.origin_global_id
  pub prev_hash : r.prev_hash ≡ r'.prev_hash
  pub hash : r.hash ≡ r'.hash

abbrev pub SameRecords : List ShredRecord → List ShredRecord → Type 0
SameRecords [] [] = Unit
SameRecords (r ∷ rs) (r' ∷ rs') = SameRecord r r' × SameRecords rs rs'
SameRecords _ _ = ⊥

module _ (sha : Bytes → Bytes) where
  pub check_from-cons :
      (i : ℕ) (prev : Bytes) (r : ShredRecord) (rs : List ShredRecord)
      → check_from sha i prev (r ∷ rs) ≡ ok tt
      → (r.prev_hash ≡ prev)
        × (r.hash ≡ record_hash sha prev r)
        × (check_from sha (i + 1) r.hash rs ≡ ok tt)
  unfolding check_from
  check_from-cons i prev r rs h =
      let a : (r.prev_hash == prev) ≡ true = ground arith in
      let b : (r.hash == record_hash sha prev r) ≡ true = ground arith in
      (eq_of_beq r.prev_hash prev a, eq_of_beq r.hash (record_hash sha prev r) b, ground arith)

  same_from :
      (i j : ℕ) (prev prev' : Bytes) (rs rs' : List ShredRecord)
      → IsCollisionFree sha
      → length rs ≡ length rs'
      → All RecordInRange rs
      → All RecordInRange rs'
      → check_from sha i prev rs ≡ ok tt
      → check_from sha j prev' rs' ≡ ok tt
      → tail_hash prev rs ≡ tail_hash prev' rs'
      → (prev ≡ prev') × SameRecords rs rs'
  unfolding shred_record_hash
  same_from i j prev prev' [] [] free len h h' c c' e = (e, tt)
  same_from i j prev prev' [] (r ∷ rs) free len h h' c c' e = absurd (omega arith)
  same_from i j prev prev' (r ∷ rs) [] free len h h' c c' e = absurd (omega arith)
  same_from i j prev prev' (r ∷ rs) (r' ∷ rs') free len h h' c c' e =
      let (link, hash, rest) = check_from-cons i prev r rs c in
      let (link', hash', rest') = check_from-cons j prev' r' rs' c' in
      let later =
        same_from (i + 1) (j + 1) r.hash r'.hash rs rs' free (omega arith) h.1 h'.1 rest rest' e in
      let inputs =
        hash_input-injective prev prev' r.pii_id r'.pii_id r.erased_at r'.erased_at
          r.origin_global_id r'.origin_global_id h.0 h'.0
          (free (hash_input prev r.pii_id r.erased_at r.origin_global_id)
            (hash_input prev' r'.pii_id r'.erased_at r'.origin_global_id)
            (sym hash ∙ later.0 ∙ hash')) in
      (
        inputs.0,
        (
          record {
            pii_id = inputs.1;
            second = inputs.2;
            origin = inputs.3;
            prev_hash = link ∙ inputs.0 ∙ sym link';
            hash = later.0;
          },
          later.1,
        ),
      )

  -- Tamper evidence: two ledgers of one length that both pass CheckShredChain and end in the same
  -- hash hold the same records, their times equal to the second, if the hash has no collisions and
  -- the ids are in the range of their Go types.
  pub same_tail-SameRecords :
      (rs rs' : List ShredRecord)
      → IsCollisionFree sha
      → length rs ≡ length rs'
      → All RecordInRange rs
      → All RecordInRange rs'
      → check_shred_chain sha rs ≡ ok tt
      → check_shred_chain sha rs' ≡ ok tt
      → tail_hash zero_hash rs ≡ tail_hash zero_hash rs'
      → SameRecords rs rs'
  unfolding check_shred_chain
  same_tail-SameRecords rs rs' free len h h' c c' e =
      (same_from 0 0 zero_hash zero_hash rs rs' free len h h' c c' e).1
