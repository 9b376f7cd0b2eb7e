-- ===== src/Base/Endian.antt =====
-- encoding/binary.BigEndian: fixed-width numbers as bytes, most significant first.
use Prim.Native.Nat.{ℕ, zero, suc, ◌+◌, ◌*◌, ◌/◌, ◌%◌, ◌^◌, ◌<◌}
use mathlib.Core.Path.{◌≡◌, refl, ap, sym, ◌∙◌}
use mathlib.Core.List.{[], ◌∷◌, ◌++◌}
use native.Mathlib.Omega.{arith}
use native.Mathlib.Nat.{pow-suc}
use go_es_light.Base.Lists.{
  length, take, drop, length-append, take-append_length, drop-append_length,
}
use go_es_light.Base.Results.{Bytes}

unfoldable pub be_bytes : ℕ → ℕ → Bytes
be_bytes zero n = []
be_bytes (suc w) n = be_bytes w (n / 256) ++ (n % 256) ∷ []

be_value_from : ℕ → Bytes → ℕ
be_value_from acc [] = acc
be_value_from acc (b ∷ bs) = be_value_from (acc * 256 + b) bs

unfoldable pub be_value : Bytes → ℕ
unfolding be_value_from
be_value bs = be_value_from 0 bs

be_value_from-append :
    (acc : ℕ) (xs : Bytes) (b : ℕ)
    → be_value_from acc (xs ++ b ∷ []) ≡ be_value_from acc xs * 256 + b
unfolding be_value_from
be_value_from-append acc [] b = refl
be_value_from-append acc (x ∷ xs) b = be_value_from-append (acc * 256 + x) xs b

pub length-be_bytes : (w n : ℕ) → length (be_bytes w n) ≡ w
unfolding be_bytes
length-be_bytes zero n = refl
length-be_bytes (suc w) n =
    omega
      (arith, length-append (be_bytes w (n / 256)) ((n % 256) ∷ []), length-be_bytes w (n / 256))

pub be_value-be_bytes : (w n : ℕ) → n < 256 ^ w → be_value (be_bytes w n) ≡ n
unfolding be_bytes be_value
be_value-be_bytes zero n h = omega arith
be_value-be_bytes (suc w) n h =
    let small : n < 256 ^ w * 256 = rw pow-suc at h in
    be_value_from-append 0 (be_bytes w (n / 256)) (n % 256)
    ∙ omega (arith, be_value-be_bytes w (n / 256) (omega arith))

pub be_bytes-injective :
    (w n m : ℕ) → n < 256 ^ w → m < 256 ^ w → be_bytes w n ≡ be_bytes w m → n ≡ m
be_bytes-injective w n m hn hm h =
    sym (be_value-be_bytes w n hn) ∙ ap be_value h ∙ be_value-be_bytes w m hm

-- Two byte strings that end in suffixes of one length agree part by part.
pub append-injective :
    (xs ys s t : Bytes) → length s ≡ length t → xs ++ s ≡ ys ++ t → (xs ≡ ys) × (s ≡ t)
append-injective xs ys s t h e =
    let same : length xs ≡ length ys =
      omega (arith, h, ap length e, length-append xs s, length-append ys t) in
    (
      sym (take-append_length xs s)
          ∙ ap (take (length xs)) e
          ∙ ap (λ k. take k (ys ++ t)) same
          ∙ take-append_length ys t,
      sym (drop-append_length xs s)
          ∙ ap (drop (length xs)) e
          ∙ ap (λ k. drop k (ys ++ t)) same
          ∙ drop-append_length ys t,
    )
