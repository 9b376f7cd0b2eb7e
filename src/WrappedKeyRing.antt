-- ===== src/WrappedKeyRing.antt =====
-- es/wrapped_keyring.go: a key ring that stores its keys wrapped.
pub mod Framing
pub mod Keys
pub mod Rotation
pub mod AesGcm
use go_es_light.Base.{
  ℕ, suc, ◌+◌, ◌-◌, ◌%◌, ◌^◌, ◌≡◌, List, [], ◌∷◌, ◌++◌, Option, none, some, ◌==◌, list_eq, nat_eq,
  length, take, drop, ltb, if◌then◌else◌, be_bytes, be_value, Bytes, Result, ok, err, Error,
  context,
}
use go_es_light.KeyRing.{KeyRing}

-- encodeWrappedBlob: the length of the label in two bytes, the label, and the blob.
unfoldable pub encode_wrapped_blob : Bytes → Bytes → Bytes
encode_wrapped_blob label blob = be_bytes 2 (length label % 2 ^ 16) ++ (label ++ blob)

-- decodeWrappedBlob
unfoldable pub decode_wrapped_blob : Bytes → Result (Bytes × Bytes)
decode_wrapped_blob [] = err (Error.text "es: wrapped keyring: blob too short")
decode_wrapped_blob (b ∷ []) = err (Error.text "es: wrapped keyring: blob too short")
decode_wrapped_blob (b ∷ c ∷ bs) =
    let n = be_value (b ∷ c ∷ []) in
    if ltb (length bs) n
    then err (Error.text "es: wrapped keyring: corrupt label length")
    else ok (take n bs, drop n bs)

-- interface KeyWrapper. What Wrap draws from rand.Read is the first argument.
pub record KeyWrapper : Type 0 where
  pub wrap : Bytes → Bytes → Result Bytes
  pub unwrap : Bytes → Result Bytes
  pub label : Bytes

-- type WrappedKeyRing struct, over the keys K of the ring below
pub record WrappedKeyRing (K : Type 0) : Type 0 where
  pub keys : K
  pub wrapper : KeyWrapper

abbrev unwrapped : Result Bytes → Result (Option Bytes)
unwrapped (ok key) = ok (some key)
unwrapped (err x) = err x

abbrev pub unwrap_blob : KeyWrapper → Result (Bytes × Bytes) → Result (Option Bytes)
unwrap_blob w (err x) = err (Error.wrap "es: wrapped keyring: decode stored blob" x)
unwrap_blob w (ok (label, blob)) =
    if label == w.label
    then unwrapped (context "es: wrapped keyring: unwrap key" (w.unwrap blob))
    else err (Error.text "es: wrapped keyring: stored key was wrapped with another wrapper")

abbrev pub get_wrapped : KeyWrapper → Result (Option Bytes) → Result (Option Bytes)
get_wrapped w (err x) = err (Error.wrap "es: wrapped keyring: get wrapped key" x)
get_wrapped w (ok none) = ok none
get_wrapped w (ok (some wrapped)) = unwrap_blob w (decode_wrapped_blob wrapped)

-- One key of Rotate: the blob to store for it.
abbrev pub rewrap_key : KeyWrapper → Bytes → Result Bytes → Result Bytes
rewrap_key new_wrapper nonce (err x) =
    err (Error.wrap "es: wrapped keyring: rotation: unwrap key" x)
rewrap_key new_wrapper nonce (ok key) =
    context "es: wrapped keyring: rotation: re-wrap key" (new_wrapper.wrap nonce key)

abbrev pub rewrap_blob : KeyWrapper → KeyWrapper → Bytes → Result (Bytes × Bytes) → Result Bytes
rewrap_blob w new_wrapper nonce (err x) =
    err (Error.wrap "es: wrapped keyring: rotation: decode stored blob" x)
rewrap_blob w new_wrapper nonce (ok (label, blob)) =
    if label == w.label
    then rewrap_key new_wrapper nonce (w.unwrap blob)
    else err
        (Error.text "es: wrapped keyring: rotation: stored key was wrapped with another wrapper")

-- The stored bytes of a subject; a nil slice has length 0.
abbrev pub stored_bytes : Option Bytes → Bytes
stored_bytes none = []
stored_bytes (some b) = b

abbrev pub rewrap_stored : KeyWrapper → KeyWrapper → Bytes → Result (Option Bytes) → Result Bytes
rewrap_stored w new_wrapper nonce (err x) =
    err (Error.wrap "es: wrapped keyring: rotation: get wrapped key" x)
rewrap_stored w new_wrapper nonce (ok b) =
    rewrap_blob w new_wrapper nonce (decode_wrapped_blob (stored_bytes b))

module _ {K : Type 0} (ring : KeyRing K) where
  -- WrappedKeyRing.Get
  unfoldable pub get : ℕ → WrappedKeyRing K → Result (Option Bytes)
  get pii_id r = get_wrapped r.wrapper (ring.get pii_id r.keys)

  abbrev put_wrapped : ℕ → WrappedKeyRing K → Result Bytes → Result (Unit {0}) × WrappedKeyRing K
  put_wrapped pii_id r (err x) = (err (Error.wrap "es: wrapped keyring: wrap key" x), r)
  put_wrapped pii_id r (ok wrapped) =
      let (e, k) = ring.put pii_id (encode_wrapped_blob r.wrapper.label wrapped) r.keys in
      (context "es: wrapped keyring: store wrapped key" e, record r { keys = k })

  -- WrappedKeyRing.Put
  unfoldable pub put : Bytes → ℕ → Bytes → WrappedKeyRing K → Result (Unit {0}) × WrappedKeyRing K
  put nonce pii_id key r = put_wrapped pii_id r (r.wrapper.wrap nonce key)

  -- WrappedKeyRing.Forget
  unfoldable pub forget : ℕ → WrappedKeyRing K → Result (Unit {0}) × WrappedKeyRing K
  forget pii_id r =
      let (e, k) = ring.forget pii_id r.keys in
      (context "es: wrapped keyring: forget key" e, record r { keys = k })

  abbrev store_rewrapped : ℕ → KeyWrapper → Result Bytes → K → Result (Unit {0}) × K
  store_rewrapped pii_id new_wrapper (err x) k = (err x, k)
  store_rewrapped pii_id new_wrapper (ok b) k =
      let (e, k') = ring.put pii_id (encode_wrapped_blob new_wrapper.label b) k in
      (context "es: wrapped keyring: rotation: store re-wrapped key" e, k')

  -- One round of Rotate's loop.
  unfoldable pub rotate_key : KeyWrapper → KeyWrapper → Bytes → ℕ → K → Result (Unit {0}) × K
  rotate_key w new_wrapper nonce pii_id k =
      store_rewrapped pii_id new_wrapper (rewrap_stored w new_wrapper nonce (ring.get pii_id k)) k

  -- The loop of Rotate, with a nonce for each round.
  unfoldable pub rotate_keys :
      KeyWrapper → KeyWrapper → (ℕ → Bytes) → List ℕ → K → Result (Unit {0}) × K
  rotate_keys w new_wrapper nonces [] k = (ok tt, k)
  rotate_keys w new_wrapper nonces (p ∷ ps) k =
      let (e, k') = rotate_key w new_wrapper (nonces p) p k in
      elim e [ ok _ ↦ rotate_keys w new_wrapper nonces ps k' | err x ↦ (err x, k') ]

  abbrev rotated :
      KeyWrapper → WrappedKeyRing K → Result (Unit {0}) × K → Result (Unit {0}) × WrappedKeyRing K
  rotated new_wrapper r (ok _, k) = (ok tt, record { keys = k; wrapper = new_wrapper })
  rotated new_wrapper r (err x, k) = (err x, record r { keys = k })

  abbrev rotate_listed :
      KeyWrapper
      → (ℕ → Bytes)
      → WrappedKeyRing K
      → Result (List ℕ)
      → Result (Unit {0}) × WrappedKeyRing K
  rotate_listed new_wrapper nonces r (err x) =
      (err (Error.wrap "es: wrapped keyring: list subjects" x), r)
  rotate_listed new_wrapper nonces r (ok ps) =
      rotated new_wrapper r (rotate_keys r.wrapper new_wrapper nonces ps r.keys)

  abbrev rotate_with :
      KeyWrapper
      → (ℕ → Bytes)
      → WrappedKeyRing K
      → Option (K → Result (List ℕ))
      → Result (Unit {0}) × WrappedKeyRing K
  rotate_with new_wrapper nonces r none = (err Error.no_key_lister, r)
  rotate_with new_wrapper nonces r (some list) = rotate_listed new_wrapper nonces r (list r.keys)

  -- WrappedKeyRing.Rotate
  unfoldable pub rotate :
      KeyWrapper → (ℕ → Bytes) → WrappedKeyRing K → Result (Unit {0}) × WrappedKeyRing K
  unfolding rotate_keys rotate_key
  rotate new_wrapper nonces r = rotate_with new_wrapper nonces r ring.subjects
