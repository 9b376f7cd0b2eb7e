-- ===== src/Pii/Codecs.antt =====
-- What es/pii.go relies on in encoding/json, crypto/cipher and encoding/base64.
use go_es_light.Base.{
  ℕ, ◌≡◌, ◌≢◌, Option, none, some, List, [], Map, lookup, list_eq, nat_eq, length, All, Bytes,
  Result, ok,
}
use go_es_light.Json.{Json}
use go_es_light.Pii.{Aead}

-- GCM and base64 undo what they did, and base64 writes text.
pub record IsAead (a : Aead) (IsText : Bytes → Type 0) : Type 0 where
  pub open_seal : (key n p : Bytes) → a.open_sealed key n (a.seal key n p) ≡ ok p
  pub decode_encode : (b : Bytes) → a.decode (a.encode b) ≡ ok b
  pub encode_text : (b : Bytes) → IsText (a.encode b)

abbrev pub FillsNonce : Aead → (ℕ → Result Bytes) → Type 0
FillsNonce a nonce = (i : ℕ) (n : Bytes) → nonce i ≡ ok n → length n ≡ a.nonce_size

abbrev pub map_value : (Bytes → Bytes) → Option Bytes → Option Bytes
map_value f none = none
map_value f (some v) = some (f v)

-- The keys of a map are text, and its values JSON values.
abbrev pub IsObject : (Bytes → Type 0) → (Bytes → Type 0) → Map Bytes Bytes → Type 0
IsObject IsText IsValue m = (k v : Bytes) → lookup k m ≡ some v → IsText k × IsValue v

-- encoding/json reads back what it wrote: a string that is text, and an object, of whose values
-- Marshal writes the `compact` form, without white space and with < > & escaped. What Marshal writes
-- of a string is compact. IsText is that a string is UTF-8, IsValue that a raw message is a JSON value.
pub record IsJson (j : Json) (compact : Bytes → Bytes) (IsText IsValue : Bytes → Type 0)
    : Type 0 where
  pub object :
      (m : Map Bytes Bytes) (b : Bytes)
      → IsObject IsText IsValue m
      → j.encode_object m ≡ ok b
      → (m' : Map Bytes Bytes) × (j.decode_object b ≡ ok m')
        × ((k : Bytes) → lookup k m' ≡ map_value compact (lookup k m))
  pub encodes :
      (m : Map Bytes Bytes) → IsObject IsText IsValue m → (b : Bytes) × (j.encode_object m ≡ ok b)
  pub decodes :
      (b : Bytes) (m : Map Bytes Bytes) → j.decode_object b ≡ ok m → IsObject IsText IsValue m
  pub compact_value : (v : Bytes) → IsValue v → IsValue (compact v)
  pub compact_twice : (v : Bytes) → compact (compact v) ≡ compact v
  pub string :
      (s b : Bytes)
      → IsText s
      → j.encode_string s ≡ ok b
      → (j.decode_string b ≡ ok s) × IsValue b × (compact b ≡ b)
  pub manifest :
      (l : List Bytes) (b : Bytes)
      → All IsText l
      → j.encode_manifest l ≡ ok b
      → j.decode_manifest b ≡ ok l
  pub manifest_some : (l : List Bytes) → j.encode_manifest l ≢ ok []
