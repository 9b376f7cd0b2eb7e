-- ===== src/WrappedKeyRing/Framing.antt =====
-- encodeWrappedBlob and decodeWrappedBlob of es/wrapped_keyring.go.
use go_es_light.Base.{
  ℕ, ◌<◌, ◌%◌, ◌/◌, ◌^◌, ◌≡◌, refl, ap, sym, ◌∙◌, [], ◌∷◌, ◌++◌, length, take, drop, length-append,
  take-append_length, drop-append_length, be_bytes, be_value, be_value-be_bytes, Bytes, ok, arith,
}
use go_es_light.WrappedKeyRing.{encode_wrapped_blob, decode_wrapped_blob}

two_bytes : (n : ℕ) → be_bytes 2 n ≡ (n / 256 % 256) ∷ (n % 256) ∷ []
unfolding be_bytes
two_bytes n = refl

value_two_bytes : (n : ℕ) → n < 2 ^ 16 → be_value ((n / 256 % 256) ∷ (n % 256) ∷ []) ≡ n
value_two_bytes n h = ap be_value (sym (two_bytes n)) ∙ be_value-be_bytes 2 n h

-- A framed blob is split where the length of its label, modulo 2^16, says.
pub decode-encode_mod :
    (label blob : Bytes)
    → let n = length label % 2 ^ 16 in
      decode_wrapped_blob (encode_wrapped_blob label blob)
      ≡ ok (take n (label ++ blob), drop n (label ++ blob))
unfolding encode_wrapped_blob decode_wrapped_blob
decode-encode_mod label blob =
    let n = length label % 2 ^ 16 in
    let value = value_two_bytes n (omega arith) in
    rw (two_bytes n) (ground (arith, value, length-append label blob))

-- Decoding gives back the label and the blob that were encoded, if the label is shorter than 2^16
-- bytes.
pub decode-encode :
    (label blob : Bytes)
    → length label < 2 ^ 16
    → decode_wrapped_blob (encode_wrapped_blob label blob) ≡ ok (label, blob)
decode-encode label blob h =
    let same : length label % 2 ^ 16 ≡ length label = omega arith in
    decode-encode_mod label blob
    ∙ rw (same, take-append_length label blob, drop-append_length label blob)
