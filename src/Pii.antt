-- ===== src/Pii.antt =====
-- es/pii.go: sealing the personal fields of an event, and opening them again.
pub mod Codecs
pub mod RoundTrip
pub mod Shredding
use go_es_light.Base.{
  ℕ, ◌+◌, Option, none, some, List, [], ◌∷◌, ◌++◌, Map, lookup, insert, list_eq, nat_eq, length,
  take, drop, ltb, if◌then◌else◌, Bool, Bytes, Result, ok, err, Error, context, ◌>>=◌,
}
use go_es_light.Event.{DomainEvent}
use go_es_light.Json.{Json}
use go_es_light.KeyRing.{KeyRing}

-- What the code asks of crypto/aes, crypto/cipher and encoding/base64: aes.NewCipher's check of a
-- key, the NonceSize, Seal and Open of GCM without additional data, and the standard encoding.
pub record Aead : Type 0 where
  pub check_key : Bytes → Result (Unit {0})
  pub nonce_size : ℕ
  pub seal : Bytes → Bytes → Bytes → Bytes
  pub open_sealed : Bytes → Bytes → Bytes → Result Bytes
  pub encode : Bytes → Bytes
  pub decode : Bytes → Result Bytes

-- What one Seal draws from rand.Read: a key, and a nonce for the field at each position.
pub record Draws : Type 0 where
  pub key : Result Bytes
  pub nonce : ℕ → Result Bytes

module _ (a : Aead) where
  unfoldable pub pii_encrypt : Result Bytes → Bytes → Bytes → Result Bytes
  pii_encrypt nonce key plaintext =
      a.check_key key >>= λ _. nonce >>= λ n. ok (a.encode (n ++ a.seal key n plaintext))

  unfoldable pub pii_decrypt : Bytes → Bytes → Result Bytes
  pii_decrypt key encoded = a.decode encoded >>= λ blob. a.check_key key >>= λ _.
      if ltb (length blob) a.nonce_size
      then err (Error.text "es: pii: ciphertext too short")
      else a.open_sealed key (take a.nonce_size blob) (drop a.nonce_size blob)

  module _ (j : Json) where
    -- What Seal writes in place of a value.
    unfoldable pub seal_value : Result Bytes → Bytes → Bytes → Result Bytes
    unfolding pii_encrypt
    seal_value nonce key raw =
        context "es: pii: encrypt field" (pii_encrypt nonce key raw) >>= λ ciphertext.
        context "es: pii: marshal encrypted field" (j.encode_string ciphertext)

    -- The loop of Seal over the fields, of which the first has position i.
    unfoldable pub seal_fields :
        (ℕ → Result Bytes) → Bytes → ℕ → List Bytes → Map Bytes Bytes → Result (Map Bytes Bytes)
    seal_fields nonce key i [] payload = ok payload
    seal_fields nonce key i (f ∷ fs) payload = elim (lookup f payload) [
      | none ↦ seal_fields nonce key (i + 1) fs payload
      | some raw ↦ seal_value (nonce i) key raw >>= λ enc.
          seal_fields nonce key (i + 1) fs (insert f enc payload)
    ]

    -- The value that Open puts in place of a stored one: one that is no string stays.
    abbrev pub open_string : Bytes → Bytes → Result Bytes → Result Bytes
    open_string key raw (err _) = ok raw
    open_string key raw (ok ciphertext) =
        context "es: pii: decrypt field" (pii_decrypt key ciphertext)

    unfoldable pub open_value : Bytes → Bytes → Result Bytes
    unfolding pii_decrypt
    open_value key raw = open_string key raw (j.decode_string raw)

    -- The loop of Open over the fields.
    unfoldable pub open_fields : Bytes → List Bytes → Map Bytes Bytes → Result (Map Bytes Bytes)
    open_fields key [] payload = ok payload
    open_fields key (f ∷ fs) payload = elim (lookup f payload) [
      | none ↦ open_fields key fs payload
      | some raw ↦
          open_value key raw >>= λ plaintext. open_fields key fs (insert f plaintext payload)
    ]

    abbrev pub seal_manifest : DomainEvent → Result Bytes → Result (Unit {0}) × DomainEvent
    seal_manifest e (err x) = (err (Error.wrap "es: pii: marshal field manifest" x), e)
    seal_manifest e (ok manifest) = (ok tt, record e { pii_fields = manifest })

    abbrev pub seal_encoded :
        List Bytes → DomainEvent → Result Bytes → Result (Unit {0}) × DomainEvent
    seal_encoded fields e (err x) = (err (Error.wrap "es: pii: marshal payload" x), e)
    seal_encoded fields e (ok payload) =
        seal_manifest (record e { payload = payload }) (j.encode_manifest fields)

    abbrev pub seal_members :
        List Bytes → DomainEvent → Result (Map Bytes Bytes) → Result (Unit {0}) × DomainEvent
    seal_members fields e (err x) = (err x, e)
    seal_members fields e (ok members) = seal_encoded fields e (j.encode_object members)

    -- Seal, once the key is there
    unfoldable pub seal_with :
        Draws → List Bytes → Bytes → DomainEvent → Result (Unit {0}) × DomainEvent
    unfolding seal_fields
    seal_with d fields key e = seal_members fields e (
        context "es: pii: unmarshal payload" (j.decode_object e.payload)
        >>= seal_fields d.nonce key 0 fields)

    abbrev pub open_encoded : DomainEvent → Result Bytes → Result DomainEvent
    open_encoded e (err x) = err (Error.wrap "es: pii: marshal payload" x)
    open_encoded e (ok payload) = ok (record e { payload = payload })

    -- Open, once the key has been read
    abbrev pub open_with : List Bytes → DomainEvent → Result (Option Bytes) → Result DomainEvent
    open_with fields e (err x) = err (Error.wrap "es: pii: get key" x)
    open_with fields e (ok none) = ok (record e { pii_unrecoverable = Bool.true })
    open_with fields e (ok (some key)) =
        context "es: pii: unmarshal payload" (j.decode_object e.payload) >>= λ payload.
        open_fields key fields payload >>= λ opened. open_encoded e (j.encode_object opened)

    module _ {K : Type 0} (ring : KeyRing K) where
      abbrev stored_key : Bytes → Result (Unit {0}) × K → Result Bytes × K
      stored_key key (ok _, k) = (ok key, k)
      stored_key key (err x, k) = (err (Error.wrap "es: pii: store key" x), k)

      abbrev issue_key : ℕ → Result Bytes → K → Result Bytes × K
      issue_key p (err x) k = (err (Error.wrap "es: pii: generate key" x), k)
      issue_key p (ok key) k = stored_key key (ring.put p key k)

      abbrev key_or_issue : ℕ → Draws → Result (Option Bytes) → K → Result Bytes × K
      key_or_issue p d (err x) k = (err (Error.wrap "es: pii: get key" x), k)
      key_or_issue p d (ok (some key)) k = (ok key, k)
      key_or_issue p d (ok none) k = issue_key p d.key k

      abbrev sealed :
          Draws → List Bytes → DomainEvent → Result Bytes × K → Result (Unit {0}) × DomainEvent × K
      sealed d fields e (err x, k) = (err x, e, k)
      sealed d fields e (ok key, k) = let (r, e') = seal_with d fields key e in (r, e', k)

      abbrev pub seal_fields_of :
          Draws → Option ℕ → List Bytes → DomainEvent → K → Result (Unit {0}) × DomainEvent × K
      seal_fields_of d none fields e k = (ok tt, e, k)
      seal_fields_of d (some p) [] e k = (ok tt, e, k)
      seal_fields_of d (some p) (f ∷ fs) e k =
          sealed d (f ∷ fs) e (key_or_issue p d (ring.get p k) k)

      -- PiiAnonymizer.Seal; src is what PiiFields of the payload lists under "payload"
      unfoldable pub seal :
          Draws → Option (List Bytes) → DomainEvent → K → Result (Unit {0}) × DomainEvent × K
      unfolding seal_with
      seal d none e k = (ok tt, e, k)
      seal d (some fields) e k = seal_fields_of d e.pii_id fields e k

      abbrev pub open_listed : ℕ → DomainEvent → K → Result (List Bytes) → Result DomainEvent
      open_listed p e k (err _) = ok e
      open_listed p e k (ok []) = ok e
      open_listed p e k (ok (f ∷ fs)) = open_with (f ∷ fs) e (ring.get p k)

      abbrev pub open_marked : Option ℕ → Bytes → DomainEvent → K → Result DomainEvent
      open_marked none manifest e k = ok e
      open_marked (some p) [] e k = ok e
      open_marked (some p) (b ∷ bs) e k = open_listed p e k (j.decode_manifest (b ∷ bs))

      -- PiiAnonymizer.Open
      unfoldable pub open_event : DomainEvent → K → Result DomainEvent
      unfolding open_fields open_value
      open_event e k = open_marked e.pii_id e.pii_fields e k

      -- PiiAnonymizer.Forget
      unfoldable pub forget : ℕ → K → Result (Unit {0}) × K
      forget p k = ring.forget p k
