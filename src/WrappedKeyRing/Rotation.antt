-- ===== src/WrappedKeyRing/Rotation.antt =====
-- WrappedKeyRing.Rotate of es/wrapped_keyring.go over the in-memory ring.
use go_es_light.Base.{
  ℕ, contains-All, ◌≡◌, ◌≢◌, refl, ap, sym, ◌∙◌, true, false, Bool, List, [], ◌∷◌, Option, none,
  some, lookup, insert, lookup-insert, lookup-insert_self, ◌==◌, nat_eq, list_eq, eq_of_beq, keys,
  lookup_absent, contains, Distinct, All, if◌then◌else◌, Bytes, Result, ok, err, Error, context,
  arith, Bool-cases, inl, inr,
}
use go_es_light.KeyRing
use go_es_light.KeyRing.{MemoryKeys, memory_keys}
use go_es_light.WrappedKeyRing.{
  encode_wrapped_blob, decode_wrapped_blob, KeyWrapper, WrappedKeyRing, get_wrapped, get,
  rewrap_key, rewrap_blob, rewrap_stored, store_rewrapped, rotate_key, rotate_keys, rotated, rotate,
}
use go_es_light.WrappedKeyRing.Keys.{IsWrapper, get-framed}

module _ (w w' : KeyWrapper) where
  -- What one round of the loop stores, and for which key.
  record Rewrapped (nonce : Bytes) (o : Option Bytes) (b : Bytes) : Type 0 where
    key : Bytes
    old : get_wrapped w (ok o) ≡ ok (some key)
    new : w'.wrap nonce key ≡ ok b

  rewrap_blob-Rewrapped :
      (nonce stored b : Bytes)
      → rewrap_blob w w' nonce (decode_wrapped_blob stored) ≡ ok b
      → Rewrapped nonce (some stored) b
  rewrap_blob-Rewrapped nonce stored b h = decoded (decode_wrapped_blob stored) refl h
    where
      wrapped :
          (key : Bytes) (label blob : Bytes)
          → decode_wrapped_blob stored ≡ ok (label, blob)
          → (label == w.label) ≡ true
          → w.unwrap blob ≡ ok key
          → (o : Result Bytes) → w'.wrap nonce key ≡ o
          → context "es: wrapped keyring: rotation: re-wrap key" o ≡ ok b
          → Rewrapped nonce (some stored) b
      wrapped key label blob d l u (err x) e h = cc
      wrapped key label blob d l u (ok b') e h = record {
        key = key;
        old = rw (d, l, u) refl;
        new = cc;
      }

      unwrapped_lem :
          (label blob : Bytes)
          → decode_wrapped_blob stored ≡ ok (label, blob)
          → (label == w.label) ≡ true
          → (o : Result Bytes) → w.unwrap blob ≡ o
          → rewrap_key w' nonce o ≡ ok b
          → Rewrapped nonce (some stored) b
      unwrapped_lem label blob d l (err x) u h = cc
      unwrapped_lem label blob d l (ok key) u h =
          wrapped key label blob d l u (w'.wrap nonce key) refl h

      labelled :
          (label blob : Bytes)
          → decode_wrapped_blob stored ≡ ok (label, blob)
          → (t : Bool) → (label == w.label) ≡ t
          → (if t
              then rewrap_key w' nonce (w.unwrap blob)
              else err (
                  Error.text
                    "es: wrapped keyring: rotation: stored key was wrapped with another wrapper"))
            ≡ ok b
          → Rewrapped nonce (some stored) b
      labelled label blob d false l h = cc
      labelled label blob d true l h = unwrapped_lem label blob d l (w.unwrap blob) refl h

      decoded :
          (o : Result (Bytes × Bytes))
          → decode_wrapped_blob stored ≡ o
          → rewrap_blob w w' nonce o ≡ ok b
          → Rewrapped nonce (some stored) b
      decoded (err x) d h = cc
      decoded (ok (label, blob)) d h = labelled label blob d (label == w.label) refl h

  stored_lem :
      (nonce : Bytes) (p : ℕ) (o : Option Bytes) (k : MemoryKeys) (r : Result Bytes)
      → rewrap_stored w w' nonce (ok o) ≡ r
      → (store_rewrapped memory_keys p w' r k).0 ≡ ok tt
      → (b : Bytes) × Rewrapped nonce o b
        × ((store_rewrapped memory_keys p w' r k).1 ≡ insert p (encode_wrapped_blob w'.label b) k)
  unfolding KeyRing.put decode_wrapped_blob
  stored_lem nonce p o k (err x) e h = cc
  stored_lem nonce p none k (ok b) e h = cc
  stored_lem nonce p (some s) k (ok b) e h = (b, rewrap_blob-Rewrapped nonce s b e, refl)

  -- A round stores, for its key, what the new wrapper reads as that key.
  rotate_key_lem :
      IsWrapper w'
      → (nonce : Bytes) (p q : ℕ) (k : MemoryKeys)
      → (rotate_key memory_keys w w' nonce p k).0 ≡ ok tt
      → let k' = (rotate_key memory_keys w w' nonce p k).1 in
        ((p == q) ≡ true → get_wrapped w' (ok (lookup q k')) ≡ get_wrapped w (ok (lookup q k)))
        × ((p == q) ≡ false → lookup q k' ≡ lookup q k)
  unfolding rotate_key KeyRing.get
  rotate_key_lem v nonce p q k h =
      let (b, s, e) =
        stored_lem nonce p (lookup p k) k (rewrap_stored w w' nonce (ok (lookup p k))) refl h in
      (
        λ i.
            rw
              (
                e,
                sym (eq_of_beq p q i),
                lookup-insert_self p (encode_wrapped_blob w'.label b) k,
                get-framed w' nonce s.key b v s.new,
                s.old,
              )
              refl,
        λ i. rw (e, lookup-insert p q (encode_wrapped_blob w'.label b) k, i) refl,
      )

module _ (w w' : KeyWrapper) (v : IsWrapper w') (nonces : ℕ → Bytes) where
  -- What the loop leaves of the key of `q`.
  abbrev Kept : ℕ → List ℕ → MemoryKeys → MemoryKeys → Type 0
  Kept q ps k k' =
      (contains q ps ≡ true → get_wrapped w' (ok (lookup q k')) ≡ get_wrapped w (ok (lookup q k)))
      × (contains q ps ≡ false → lookup q k' ≡ lookup q k)

  Kept-cons :
      (p q : ℕ) (ps : List ℕ) (k k' k'' : MemoryKeys)
      → All (λ y. y ≢ p) ps
      → ((p == q) ≡ true → get_wrapped w' (ok (lookup q k')) ≡ get_wrapped w (ok (lookup q k)))
      → ((p == q) ≡ false → lookup q k' ≡ lookup q k)
      → Kept q ps k' k''
      → Kept q (p ∷ ps) k k''
  Kept-cons p q ps k k' k'' d hit miss rest = elim (Bool-cases (p == q)) [
    | inl e ↦
        let absent : contains q ps ≡ false = rw (sym (eq_of_beq p q e)) (contains-All p ps d) in
        (λ i. ap (λ o. get_wrapped w' (ok o)) (rest.1 absent) ∙ hit e, λ i. ground (arith, e))
    | inr e ↦ (
      λ i. rest.0 (ground (arith, e, i)) ∙ ap (λ o. get_wrapped w (ok o)) (miss e),
      λ i. rest.1 (ground (arith, e, i)) ∙ miss e,
    )
  ]

  abbrev rest_of : List ℕ → Result (Unit {0}) × MemoryKeys → Result (Unit {0}) × MemoryKeys
  rest_of ps r = elim r.0 [
    | ok _ ↦ rotate_keys memory_keys w w' nonces ps r.1
    | err x ↦ (err x, r.1)
  ]

  rotate_keys-Kept :
      (q : ℕ) (ps : List ℕ) (k : MemoryKeys)
      → Distinct ps
      → (rotate_keys memory_keys w w' nonces ps k).0 ≡ ok tt
      → Kept q ps k (rotate_keys memory_keys w w' nonces ps k).1
  unfolding rotate_keys
  rotate_keys-Kept q [] k d h = (λ i. cc, λ i. refl)
  rotate_keys-Kept q (p ∷ ps) k d h =
      after (rotate_key memory_keys w w' (nonces p) p k) refl h (λ k'. rotate_keys-Kept q ps k' d.1)
    where
      after :
          (r : Result (Unit {0}) × MemoryKeys)
          → rotate_key memory_keys w w' (nonces p) p k ≡ r
          → (rest_of ps r).0 ≡ ok tt
          → ((k' : MemoryKeys)
              → (rotate_keys memory_keys w w' nonces ps k').0 ≡ ok tt
              → Kept q ps k' (rotate_keys memory_keys w w' nonces ps k').1)
          → Kept q (p ∷ ps) k (rest_of ps r).1
      after (err x, k') e h' rest = cc
      after (ok u, k') e h' rest =
          let first = rotate_key_lem w w' v (nonces p) p q k (ap (λ r. r.0) e) in
          Kept-cons p q ps k k' (rotate_keys memory_keys w w' nonces ps k').1 d.0
            (λ i. ap (λ r. get_wrapped w' (ok (lookup q r.1))) (sym e) ∙ first.0 i)
            (λ i. ap (λ r. lookup q r.1) (sym e) ∙ first.1 i) (rest k' h')

  rotated_lem :
      (q : ℕ) (k k' : MemoryKeys)
      → Kept q (keys k) k k'
      → get_wrapped w' (ok (lookup q k')) ≡ get_wrapped w (ok (lookup q k))
  rotated_lem q k k' kept = elim (Bool-cases (contains q (keys k))) [
    | inl e ↦ kept.0 e
    | inr e ↦ rw (kept.1 e, lookup_absent q k e) refl
  ]

-- Over an in-memory ring that has each subject once, and with a new wrapper that unwraps what it
-- wraps and whose label is shorter than 2^16 bytes: a Rotate that succeeds leaves every subject
-- the answer of Get that it had; a forgotten subject stays forgotten.
pub get-rotate :
    (w' : KeyWrapper) (nonces : ℕ → Bytes) (q : ℕ) (r : WrappedKeyRing MemoryKeys)
    → IsWrapper w'
    → Distinct (keys r.keys)
    → (rotate memory_keys w' nonces r).0 ≡ ok tt
    → get memory_keys q (rotate memory_keys w' nonces r).1 ≡ get memory_keys q r
unfolding rotate get KeyRing.get KeyRing.subjects
get-rotate w' nonces q r v d h =
    after (rotate_keys memory_keys r.wrapper w' nonces (keys r.keys) r.keys) refl h
  where
    after :
        (o : Result (Unit {0}) × MemoryKeys)
        → rotate_keys memory_keys r.wrapper w' nonces (keys r.keys) r.keys ≡ o
        → (rotated memory_keys w' r o).0 ≡ ok tt
        → get memory_keys q (rotated memory_keys w' r o).1 ≡ get memory_keys q r
    after (err x, k') e h' = cc
    after (ok u, k') e h' = rotated_lem r.wrapper w' v nonces q r.keys k' (
        rw (sym (ap (λ o. o.1) e))
          (rotate_keys-Kept r.wrapper w' v nonces q (keys r.keys) r.keys d (ap (λ o. o.0) e)))
