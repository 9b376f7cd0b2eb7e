-- ===== src/Examples/Erasure.antt =====
-- es/erasure_ledger.go and es/wrapped_keyring.go at concrete inputs.
use go_es_light.Base.{
  drop-append_length, length, ◌++◌, Option, is_subject_not_found, ◌≢◌, ℕ, ◌^◌, ◌%◌, ◌≡◌, refl, ap,
  sym, List, [], ◌∷◌, none, some, All, take, drop, nat_eq, list_eq, lookup, insert, keys, Distinct,
  Bytes, Result, ok, err, Error, ok-injective, arith, be_bytes, be_value,
}
use go_es_light.ErasureLedger.{
  ShredRecord, unix_seconds, zero_hash, hash_input, shred_record_hash, check_from,
  check_shred_chain, append,
}
use go_es_light.ErasureLedger.Chain.{InRange, check-append}
use go_es_light.ErasureLedger.Evidence.{
  IsCollisionFree, RecordInRange, SameRecords, same_tail-SameRecords,
}
use go_es_light.Event.{DomainEvent}
use go_es_light.ErasureVerifier.{verify, erasures_of}
use go_es_light.ErasureVerifier.Verdict.{Gone, verify-Gone}
use go_es_light.KeyRing
use go_es_light.KeyRing.{MemoryKeys, memory_keys}
use go_es_light.WrappedKeyRing.{
  encode_wrapped_blob, decode_wrapped_blob, KeyWrapper, WrappedKeyRing, get, put, rotate,
  rotate_keys, rotate_key,
}
use mathlib.Core.Path.{subst}
use go_es_light.WrappedKeyRing.AesGcm.{
  Gcm, IsGcm, label_or, aes_wrapper, new_aes_gcm_wrapper, new_aes_gcm_wrapper-IsWrapper,
}
use go_es_light.WrappedKeyRing.Framing.{decode-encode_mod}
use go_es_light.WrappedKeyRing.Keys.{IsWrapper, get-put}
use go_es_light.WrappedKeyRing.Rotation.{get-rotate}

abbrev one_subject : ℕ
one_subject = 1

abbrev five_nanos : ℕ
five_nanos = 5

abbrev second_event : ℕ
second_event = 2

one-InRange : InRange 1 2
one-InRange = record { pii = omega arith; origin_small = omega arith }

-- A hash without collisions: the input itself.
abbrev plain : Bytes → Bytes
plain b = b

abbrev one_erasure : List ShredRecord
one_erasure = append plain 1 5 2 []

empty_chain : check_shred_chain plain [] ≡ ok tt
unfolding check_shred_chain check_from
empty_chain = refl

check-append_example : check_shred_chain plain one_erasure ≡ ok tt
check-append_example = check-append plain [] 1 5 2 empty_chain

one_erasure-checks : check_shred_chain plain one_erasure ≡ ok tt
one_erasure-checks = check-append plain [] 1 5 2 empty_chain

one_erasure-InRange : All RecordInRange one_erasure
unfolding append
one_erasure-InRange = (one-InRange, tt)

plain-IsCollisionFree : IsCollisionFree plain
plain-IsCollisionFree = λ x y h. h

same_tail_example : SameRecords one_erasure one_erasure
same_tail_example =
    same_tail-SameRecords plain one_erasure one_erasure plain-IsCollisionFree refl
      one_erasure-InRange one_erasure-InRange one_erasure-checks one_erasure-checks refl

decode-encode_mod_example :
    decode_wrapped_blob (encode_wrapped_blob (97 ∷ 98 ∷ []) (1 ∷ []))
    ≡ ok (take (2 % 2 ^ 16) (97 ∷ 98 ∷ 1 ∷ []), drop (2 % 2 ^ 16) (97 ∷ 98 ∷ 1 ∷ []))
decode-encode_mod_example = decode-encode_mod (97 ∷ 98 ∷ []) (1 ∷ [])

abbrev tail_or_error : Bytes → Result Bytes
tail_or_error [] = err (Error.text "too short")
tail_or_error (b ∷ bs) = ok bs

-- A wrapper that puts its label before the key.
abbrev labelled : ℕ → KeyWrapper
labelled l = record { wrap = λ nonce key. ok (l ∷ key); unwrap = tail_or_error; label = l ∷ [] }

labelled-IsWrapper : (l : ℕ) → IsWrapper (labelled l)
labelled-IsWrapper l = record {
  unwrap_wrap = λ nonce key b h. ap tail_or_error (sym (ok-injective h));
  label_short = omega arith;
}

abbrev empty_ring : WrappedKeyRing MemoryKeys
empty_ring = record { keys = []; wrapper = labelled 1 }

abbrev one_key : WrappedKeyRing MemoryKeys
one_key = (put memory_keys [] 9 (7 ∷ 8 ∷ []) empty_ring).1

put_done : (put memory_keys [] 9 (7 ∷ 8 ∷ []) empty_ring).0 ≡ ok tt
unfolding put KeyRing.put
put_done = refl

get-put_example : get memory_keys 9 one_key ≡ ok (some (7 ∷ 8 ∷ []))
get-put_example = get-put [] (7 ∷ 8 ∷ []) 9 9 empty_ring (labelled-IsWrapper 1) put_done

one_key-Distinct : Distinct (keys one_key.keys)
unfolding put KeyRing.put insert
one_key-Distinct = (tt, tt)

rotated_once : (rotate memory_keys (labelled 2) (λ p. []) one_key).0 ≡ ok tt
unfolding rotate rotate_keys rotate_key put KeyRing.put KeyRing.get KeyRing.subjects insert lookup
    encode_wrapped_blob decode_wrapped_blob be_bytes be_value
rotated_once = refl

get-rotate_example :
    get memory_keys 9 (rotate memory_keys (labelled 2) (λ p. []) one_key).1
    ≡ get memory_keys 9 one_key
get-rotate_example =
    get-rotate (labelled 2) (λ p. []) 9 one_key (labelled-IsWrapper 2) one_key-Distinct rotated_once

abbrev key_answer : Result (Option Bytes)
key_answer = ok none

abbrev no_events : Result (List DomainEvent)
no_events = err Error.subject_not_found

abbrev one_record : ShredRecord
one_record = record {
  pii_id = 1;
  erased_at = 5;
  origin_global_id = 2;
  prev_hash = zero_hash;
  hash = hash_input zero_hash 1 5 2;
}

verified : (verify plain 1 (ok (one_record ∷ [])) (ok none) no_events).1 ≡ ok tt
unfolding verify check_shred_chain check_from hash_input shred_record_hash is_subject_not_found
    be_bytes unix_seconds
verified = refl

verify-Gone_example :
    (rs : List ShredRecord) × (ok (one_record ∷ []) ≡ ok rs)
    × (check_shred_chain plain rs ≡ ok tt)
    × (erasures_of 1 rs ≢ [])
    × (key_answer ≡ ok none)
    × Gone no_events
verify-Gone_example = verify-Gone plain 1 (ok (one_record ∷ [])) (ok none) no_events verified

-- A cipher with a nonce of one byte, which puts the label in front
abbrev toy_gcm : Gcm
toy_gcm = record {
  nonce_size = 1;
  seal = λ nonce key label. label ++ key;
  open_sealed = λ nonce ct label. ok (drop (length label) ct);
}

toy_gcm-IsGcm : IsGcm toy_gcm
toy_gcm-IsGcm = record { open_seal = λ nonce key label sized. ap ok (drop-append_length label key) }

abbrev master_key : Bytes
master_key = 1 ∷ 2 ∷ 3 ∷ 4 ∷ 5 ∷ 6 ∷ 7 ∷ 8 ∷ 9 ∷ 10 ∷ 11 ∷ 12 ∷ 13 ∷ 14 ∷ 15 ∷ 16 ∷ []

wrapper_built :
    new_aes_gcm_wrapper (λ key. ok toy_gcm) (λ b. b) master_key []
    ≡ ok (aes_wrapper toy_gcm (label_or (λ b. b) master_key []))
unfolding new_aes_gcm_wrapper
wrapper_built = refl

new_aes_gcm_wrapper-IsWrapper_example :
    IsWrapper (aes_wrapper toy_gcm (label_or (λ b. b) master_key []))
new_aes_gcm_wrapper-IsWrapper_example =
    new_aes_gcm_wrapper-IsWrapper (λ key. ok toy_gcm) (λ b. b) master_key []
      (aes_wrapper toy_gcm (label_or (λ b. b) master_key []))
      (λ key g known. subst IsGcm (ok-injective known) toy_gcm-IsGcm) (omega arith) wrapper_built
