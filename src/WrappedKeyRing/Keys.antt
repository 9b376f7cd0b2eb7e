-- ===== src/WrappedKeyRing/Keys.antt =====
-- Get, Put and Forget of es/wrapped_keyring.go over the in-memory ring: to the caller the wrapped
-- ring is a plain map of keys.
use go_es_light.Base.{
  ℕ, ◌<◌, ◌^◌, ◌≡◌, refl, false, none, some, lookup, lookup-insert, lookup-delete, ◌==◌, nat_eq,
  list_eq, beq_self, length, if◌then◌else◌, Bytes, Result, ok, err, Error, arith,
}
use go_es_light.KeyRing
use go_es_light.KeyRing.{MemoryKeys, memory_keys}
use go_es_light.WrappedKeyRing.{
  encode_wrapped_blob, decode_wrapped_blob, KeyWrapper, WrappedKeyRing, get_wrapped, get, put,
  put_wrapped, forget,
}
use go_es_light.WrappedKeyRing.Framing.{decode-encode}

-- Unwrap reverses Wrap, and the label fits the two bytes of its length.
pub record IsWrapper (w : KeyWrapper) : Type 0 where
  pub unwrap_wrap : (nonce key b : Bytes) → w.wrap nonce key ≡ ok b → w.unwrap b ≡ ok key
  pub label_short : length w.label < 2 ^ 16

-- What Get finds in a blob that the wrapper framed.
pub get-framed :
    (w : KeyWrapper) (nonce key b : Bytes)
    → IsWrapper w
    → w.wrap nonce key ≡ ok b
    → get_wrapped w (ok (some (encode_wrapped_blob w.label b))) ≡ ok (some key)
get-framed w nonce key b v h =
    rw (decode-encode w.label b v.label_short, beq_self w.label, v.unwrap_wrap nonce key b h)

-- Over the in-memory ring, and with a wrapper that unwraps what it wraps and whose label is
-- shorter than 2^16 bytes: a Put that succeeds is what a later Get of its subject returns, and
-- changes no other subject.
pub get-put :
    (nonce key : Bytes) (p q : ℕ) (r : WrappedKeyRing MemoryKeys)
    → IsWrapper r.wrapper
    → (put memory_keys nonce p key r).0 ≡ ok tt
    → get memory_keys q (put memory_keys nonce p key r).1
      ≡ (if p == q then ok (some key) else get memory_keys q r)
unfolding get put KeyRing.get KeyRing.put
get-put nonce key p q r v done = stored (r.wrapper.wrap nonce key) refl done
  where
    stored :
        (o : Result Bytes)
        → r.wrapper.wrap nonce key ≡ o
        → (put_wrapped memory_keys p r o).0 ≡ ok tt
        → get memory_keys q (put_wrapped memory_keys p r o).1
          ≡ (if p == q then ok (some key) else get memory_keys q r)
    stored (err x) e d = cc
    stored (ok b) e d =
        rw (lookup-insert p q (encode_wrapped_blob r.wrapper.label b) r.keys)
          (ground (arith, get-framed r.wrapper nonce key b v e))

-- Over the in-memory ring, after a Forget the subject has no key, and the other subjects have
-- theirs.
pub get-forget :
    (p q : ℕ) (r : WrappedKeyRing MemoryKeys)
    → get memory_keys q (forget memory_keys p r).1
      ≡ (if p == q then ok none else get memory_keys q r)
unfolding get forget KeyRing.get KeyRing.forget
get-forget p q r = rw (lookup-delete p q r.keys) (ground arith)

-- A key that another wrapper framed is refused, never returned as something else.
pub get_other_label :
    (p : ℕ) (r : WrappedKeyRing MemoryKeys) (b label blob : Bytes)
    → lookup p r.keys ≡ some b
    → decode_wrapped_blob b ≡ ok (label, blob)
    → (label == r.wrapper.label) ≡ false
    → get memory_keys p r
      ≡ err (Error.text "es: wrapped keyring: stored key was wrapped with another wrapper")
unfolding get KeyRing.get
get_other_label p r b label blob h d other = rw (h, d, other)
