-- ===== src/ErasureLedger/Chain.antt =====
-- CheckShredChain of es/erasure_ledger.go accepts what Append builds, and refuses what was altered.
use go_es_light.Base.{
  ℕ, ◌+◌, ◌<◌, ◌^◌, ◌≡◌, refl, List, [], ◌∷◌, ◌++◌, list_eq, nat_eq, beq_self, last?, length,
  length-append, length-be_bytes, be_bytes, be_bytes-injective, append-injective, u64_mod, Bytes,
  ok, arith,
}
use go_es_light.ErasureLedger.{
  ShredRecord, unix_seconds, zero_hash, hash_input, shred_record_hash, check_from,
  check_shred_chain, tail_hash, tail_of, linked, append,
}

-- The fields that the layout stores in 16 and 8 bytes.
pub record InRange (pii_id origin : ℕ) : Type 0 where
  pub pii : pii_id < 2 ^ 128
  pub origin_small : origin < u64_mod

unix_seconds-lt : (t : ℕ) → unix_seconds t < u64_mod
unfolding unix_seconds
unix_seconds-lt t = omega arith

-- Two hashed layouts are equal only if the previous hash, the subject, the second and the
-- originating event are: no field can be shifted into its neighbour.
pub hash_input-injective :
    (prev prev' : Bytes) (p p' t t' o o' : ℕ)
    → InRange p o
    → InRange p' o'
    → hash_input prev p t o ≡ hash_input prev' p' t' o'
    → (prev ≡ prev') × (p ≡ p') × (unix_seconds t ≡ unix_seconds t') × (o ≡ o')
unfolding hash_input
hash_input-injective prev prev' p p' t t' o o' h h' e =
    let tail1 = be_bytes 8 (unix_seconds t) ++ be_bytes 8 o in
    let tail2 = be_bytes 8 (unix_seconds t') ++ be_bytes 8 o' in
    let len : length tail1 ≡ length tail2 = omega (
      arith,
      length-append (be_bytes 8 (unix_seconds t)) (be_bytes 8 o),
      length-append (be_bytes 8 (unix_seconds t')) (be_bytes 8 o'),
      length-be_bytes 8 (unix_seconds t),
      length-be_bytes 8 o,
      length-be_bytes 8 (unix_seconds t'),
      length-be_bytes 8 o',
    ) in
    let outer =
      append-injective prev prev' (be_bytes 16 p ++ tail1) (be_bytes 16 p' ++ tail2)
        (omega (
          arith,
          length-append (be_bytes 16 p) tail1,
          length-append (be_bytes 16 p') tail2,
          len,
          length-be_bytes 16 p,
          length-be_bytes 16 p',
        ))
        e in
    let middle = append-injective (be_bytes 16 p) (be_bytes 16 p') tail1 tail2 len outer.1 in
    let inner =
      append-injective (be_bytes 8 (unix_seconds t)) (be_bytes 8 (unix_seconds t')) (be_bytes 8 o)
        (be_bytes 8 o') (omega (arith, length-be_bytes 8 o, length-be_bytes 8 o')) middle.1 in
    (
      outer.0,
      be_bytes-injective 16 p p' h.pii h'.pii middle.0,
      be_bytes-injective 8 (unix_seconds t) (unix_seconds t') (unix_seconds-lt t)
          (unix_seconds-lt t') inner.0,
      be_bytes-injective 8 o o' h.origin_small h'.origin_small inner.1,
    )

tail_hash-last :
    (prev : Bytes) (r : ShredRecord) (rs : List ShredRecord)
    → tail_of (last? (r ∷ rs)) ≡ tail_hash prev (r ∷ rs)
tail_hash-last prev r [] = refl
tail_hash-last prev r (x ∷ rs) = tail_hash-last r.hash x rs

tail_of-last : (rs : List ShredRecord) → tail_of (last? rs) ≡ tail_hash zero_hash rs
tail_of-last [] = refl
tail_of-last (r ∷ rs) = tail_hash-last zero_hash r rs

module _ (sha : Bytes → Bytes) where
  check_from-append :
      (i : ℕ) (prev : Bytes) (rs : List ShredRecord) (p t o : ℕ)
      → check_from sha i prev rs ≡ ok tt
      → check_from sha i prev (rs ++ linked sha (tail_hash prev rs) p t o ∷ []) ≡ ok tt
  unfolding check_from
  check_from-append i prev [] p t o h =
      rw (beq_self prev, beq_self (shred_record_hash sha prev p t o))
  check_from-append i prev (r ∷ rs) p t o h =
      ground (arith, check_from-append (i + 1) r.hash rs p t o)

  -- A ledger whose chain is unbroken still is after an Append.
  pub check-append :
      (rs : List ShredRecord) (p t o : ℕ)
      → check_shred_chain sha rs ≡ ok tt
      → check_shred_chain sha (append sha p t o rs) ≡ ok tt
  unfolding check_shred_chain append
  check-append rs p t o h = rw (tail_of-last rs) (check_from-append 0 zero_hash rs p t o h)
