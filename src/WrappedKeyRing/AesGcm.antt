-- ===== src/WrappedKeyRing/AesGcm.antt =====
-- AesGcmWrapper of es/wrapped_keyring.go: the key wrapper of the package.
use go_es_light.Base.{
  ℕ, ◌+◌, ◌*◌, ◌/◌, ◌%◌, ◌^◌, ◌<◌, ◌≡◌, refl, ap, sym, Bool, true, false, [], ◌∷◌, ◌++◌, take, drop,
  length, length-take, length-append, take-append_length, drop-append_length, ltb, ◌==◌, nat_eq,
  if◌then◌else◌, Bytes, bytes, Result, ok, err, Error, ◌>>=◌, context, ok-injective, arith, ◌&&◌,
  not,
}
use mathlib.Core.Path.{subst}
use go_es_light.WrappedKeyRing.{KeyWrapper}
use go_es_light.WrappedKeyRing.Keys.{IsWrapper}

-- cipher.AEAD of one key: Seal and Open take the nonce, the text and the additional data.
pub record Gcm : Type 0 where
  pub nonce_size : ℕ
  pub seal : Bytes → Bytes → Bytes → Bytes
  pub open_sealed : Bytes → Bytes → Bytes → Result Bytes

-- hex.EncodeToString
abbrev hex_digit : ℕ → ℕ
hex_digit n = if ltb n 10 then 48 + n else 87 + n

abbrev pub hex : Bytes → Bytes
hex [] = []
hex (b ∷ bs) = hex_digit (b / 16) ∷ hex_digit (b % 16) ∷ hex bs

-- The nonce: rand.Read fills as many bytes as it has from the source, or fails.
abbrev read_nonce : Gcm → Bytes → Result Bytes
read_nonce g source =
    if ltb (length source) g.nonce_size
    then err (Error.text "es: aes wrapper: nonce")
    else ok (take g.nonce_size source)

-- AesGcmWrapper.Wrap and Unwrap, under the label
unfoldable pub wrap : Gcm → Bytes → Bytes → Bytes → Result Bytes
wrap g label source key = read_nonce g source >>= λ nonce. ok (nonce ++ g.seal nonce key label)

unfoldable pub unwrap : Gcm → Bytes → Bytes → Result Bytes
unwrap g label wrapped =
    if ltb (length wrapped) g.nonce_size
    then err (Error.text "es: aes wrapper: wrapped blob too short")
    else context "es: aes wrapper: open"
        (g.open_sealed (take g.nonce_size wrapped) (drop g.nonce_size wrapped) label)

-- if label == "" { ... }, with SHA-256 a parameter
abbrev pub label_or : (Bytes → Bytes) → Bytes → Bytes → Bytes
label_or sha master_key [] = bytes "aes:" ++ hex (take 4 (sha master_key))
label_or sha master_key (b ∷ bs) = b ∷ bs

abbrev pub aes_wrapper : Gcm → Bytes → KeyWrapper
aes_wrapper g label = record { wrap = wrap g label; unwrap = unwrap g label; label = label }

-- NewAesGcmWrapper. aes.NewCipher and cipher.NewGCM are the parameter new_gcm.
unfoldable pub new_aes_gcm_wrapper :
    (Bytes → Result Gcm) → (Bytes → Bytes) → Bytes → Bytes → Result KeyWrapper
unfolding wrap unwrap
new_aes_gcm_wrapper new_gcm sha master_key label =
    let n = length master_key in
    if not (n == 16) && (not (n == 24) && not (n == 32))
    then err (Error.text "es: aes wrapper: master key must be 16, 24 or 32 bytes")
    else context "es: aes wrapper" (new_gcm master_key) >>= λ g.
        ok (aes_wrapper g (label_or sha master_key label))

-- Open undoes Seal under the same nonce and the same additional data.
pub record IsGcm (g : Gcm) : Type 0 where
  pub open_seal :
      (nonce key label : Bytes)
      → length nonce ≡ g.nonce_size
      → g.open_sealed nonce (g.seal nonce key label) label ≡ ok key

length-hex : (b : Bytes) → length (hex b) ≡ length b * 2
length-hex [] = refl
length-hex (b ∷ bs) = omega (arith, length-hex bs)

take_four : (b : Bytes) → length (take 4 b) < 5
take_four [] = omega arith
take_four (a ∷ []) = omega arith
take_four (a ∷ b ∷ []) = omega arith
take_four (a ∷ b ∷ c ∷ []) = omega arith
take_four (a ∷ b ∷ c ∷ d ∷ bs) = omega arith

label_or-short :
    (sha : Bytes → Bytes) (master_key label : Bytes)
    → length label < 2 ^ 16
    → length (label_or sha master_key label) < 2 ^ 16
label_or-short sha master_key [] h =
    omega (arith, length-hex (take 4 (sha master_key)), take_four (sha master_key))
label_or-short sha master_key (b ∷ bs) h = h

module _ (g : Gcm) (label : Bytes) (v : IsGcm g) where
  unwrap-sealed :
      (nonce key : Bytes)
      → length nonce ≡ g.nonce_size
      → unwrap g label (nonce ++ g.seal nonce key label) ≡ ok key
  unfolding unwrap
  unwrap-sealed nonce key sized =
      let ct = g.seal nonce key label in
      let long : ltb (length (nonce ++ ct)) g.nonce_size ≡ false =
        ground (arith, length-append nonce ct) in
      rw (long, sym sized, take-append_length nonce ct, drop-append_length nonce ct)
        (ap (context "es: aes wrapper: open") (v.open_seal nonce key label sized))

  unwrap-wrap : (source key b : Bytes) → wrap g label source key ≡ ok b → unwrap g label b ≡ ok key
  unfolding wrap
  unwrap-wrap source key b h = drawn (ltb (length source) g.nonce_size) refl h
    where
      nonce : Bytes
      nonce = take g.nonce_size source

      drawn :
          (short : Bool)
          → ltb (length source) g.nonce_size ≡ short
          → ((if short then err (Error.text "es: aes wrapper: nonce") else ok nonce) >>= λ n.
              ok (n ++ g.seal n key label))
            ≡ ok b
          → unwrap g label b ≡ ok key
      drawn true short h = cc
      drawn false enough h =
          subst (λ x. unwrap g label x ≡ ok key) (ok-injective h)
            (unwrap-sealed nonce key (length-take g.nonce_size source (ground arith)))

-- The wrapper that NewAesGcmWrapper builds, from any key of a size that it takes, is a wrapper in
-- the sense of the wrapped key ring: Unwrap gives back the key that a Wrap was given, whatever the
-- bytes drawn for the nonce, and the label fits the frame. GCM opens what it sealed, and the label
-- given is shorter than 2^16 bytes.
pub new_aes_gcm_wrapper-IsWrapper :
    (new_gcm : Bytes → Result Gcm) (sha : Bytes → Bytes) (master_key label : Bytes) (w : KeyWrapper)
    → ((key : Bytes) (g : Gcm) → new_gcm key ≡ ok g → IsGcm g)
    → length label < 2 ^ 16
    → new_aes_gcm_wrapper new_gcm sha master_key label ≡ ok w
    → IsWrapper w
unfolding new_aes_gcm_wrapper
new_aes_gcm_wrapper-IsWrapper new_gcm sha master_key label w sound short h =
    let n = length master_key in
    built (not (n == 16) && (not (n == 24) && not (n == 32))) (new_gcm master_key) refl h
  where
    built :
        (refused : Bool) (r : Result Gcm)
        → new_gcm master_key ≡ r
        → (if refused
            then err (Error.text "es: aes wrapper: master key must be 16, 24 or 32 bytes")
            else context "es: aes wrapper" r >>= λ g.
                ok (aes_wrapper g (label_or sha master_key label)))
          ≡ ok w
        → IsWrapper w
    built true r known h = cc
    built false (err x) known h = cc
    built false (ok g) known h = subst IsWrapper (ok-injective h) (record {
      unwrap_wrap = unwrap-wrap g (label_or sha master_key label) (sound master_key g known);
      label_short = label_or-short sha master_key label short;
    })
