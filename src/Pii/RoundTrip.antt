-- ===== src/Pii/RoundTrip.antt =====
-- Seal and Open of es/pii.go: opening gives back what was sealed.
use go_es_light.Base.{
  ℕ, ◌+◌, ◌≡◌, ◌≢◌, refl, ap, sym, ◌∙◌, true, false, inl, inr, Option, none, some, List, [], ◌∷◌,
  ◌++◌, Map, lookup, insert, lookup-insert_self, lookup-insert_other, contains-All, list_eq, nat_eq,
  ◌==◌, list_beq_iff, eq_of_beq, length, take, drop, ltb, if◌then◌else◌, All, Distinct, contains,
  take-append_length, drop-append_length, length-append, Bytes, Result, ok, err, Error, context,
  ok-injective, ◌>>=◌, >>=-eq-ok, arith, Bool-cases,
}
use mathlib.Core.Path.{subst}
use go_es_light.Json.{Json}
use go_es_light.Pii.{
  Aead, pii_encrypt, pii_decrypt, seal_value, seal_fields, open_value, open_fields,
}
use go_es_light.Pii.Codecs.{FillsNonce, IsAead, IsJson, IsObject, map_value}

pub context-eq-ok : {A : Type 0} (m : _) (r : Result A) {x : A} → context m r ≡ ok x → r ≡ ok x
context-eq-ok m (ok y) h = cc
context-eq-ok m (err y) h = cc

module _ (a : Aead) (IsText : Bytes → Type 0) (va : IsAead a IsText) where
  decrypt_blob :
      (key n ct p : Bytes)
      → length n ≡ a.nonce_size
      → a.open_sealed key n ct ≡ ok p
      → (if ltb (length (n ++ ct)) a.nonce_size
          then err (Error.text "es: pii: ciphertext too short")
          else a.open_sealed key (take a.nonce_size (n ++ ct)) (drop a.nonce_size (n ++ ct)))
        ≡ ok p
  decrypt_blob key n ct p size opened =
      rw (sym size, take-append_length n ct, drop-append_length n ct)
        (ground (arith, length-append n ct))

  pub pii_decrypt-encrypt :
      (nonce : Result Bytes) (key p c : Bytes)
      → ((n : Bytes) → nonce ≡ ok n → length n ≡ a.nonce_size)
      → pii_encrypt a nonce key p ≡ ok c
      → (pii_decrypt a key c ≡ ok p) × IsText c
  unfolding pii_encrypt pii_decrypt
  pii_decrypt-encrypt nonce key p c fills h =
      let (u, checked, h1) =
        >>=-eq-ok (a.check_key key) (λ _. nonce >>= λ n. ok (a.encode (n ++ a.seal key n p))) h in
      let (n, drawn, h2) = >>=-eq-ok nonce (λ n. ok (a.encode (n ++ a.seal key n p))) h1 in
      let decoded : a.decode c ≡ ok (n ++ a.seal key n p) =
        ap a.decode (sym (ok-injective h2)) ∙ va.decode_encode (n ++ a.seal key n p) in
      (
        rw (decoded, checked)
            (decrypt_blob key n (a.seal key n p) p (fills n drawn) (va.open_seal key n p)),
        subst IsText (ok-injective h2) (va.encode_text (n ++ a.seal key n p)),
      )

  module _ (j : Json) (compact : Bytes → Bytes) (IsValue : Bytes → Type 0)
      (vj : IsJson j compact IsText IsValue) where
    -- A stored value opens to the raw one, and is a compact string.
    abbrev Opens : Bytes → Bytes → Bytes → Type 0
    Opens key enc raw = (open_value a j key enc ≡ ok raw) × IsValue enc × (compact enc ≡ enc)

    abbrev IsObj : Map Bytes Bytes → Type 0
    IsObj = IsObject IsText IsValue

    open-seal_value :
        (nonce : Result Bytes) (key raw enc : Bytes)
        → ((n : Bytes) → nonce ≡ ok n → length n ≡ a.nonce_size)
        → seal_value a j nonce key raw ≡ ok enc
        → Opens key enc raw
    unfolding seal_value open_value
    open-seal_value nonce key raw enc fills h =
        let (c, encrypted, h1) =
          >>=-eq-ok (context "es: pii: encrypt field" (pii_encrypt a nonce key raw))
            (λ c. context "es: pii: marshal encrypted field" (j.encode_string c)) h in
        let (opened, text) =
          pii_decrypt-encrypt nonce key raw c fills
            (context-eq-ok _ (pii_encrypt a nonce key raw) encrypted) in
        let (string, value, short) =
          vj.string c enc text (context-eq-ok _ (j.encode_string c) h1) in
        (rw (string, opened) refl, value, short)

    module _ (key : Bytes) where
      -- How a field of the sealed members stands to the field of the original ones.
      data IsSealed (f : Bytes) (m x : Map Bytes Bytes) : Type 0 where
        missing : lookup f m ≡ none → lookup f x ≡ none → IsSealed f m x
        present :
            (raw enc : Bytes)
            → lookup f m ≡ some raw
            → lookup f x ≡ some enc
            → Opens key enc raw
            → IsSealed f m x

      abbrev Covers : List Bytes → Map Bytes Bytes → Map Bytes Bytes → Type 0
      Covers fields m x = All (λ f. IsSealed f m x) fields

      -- Open's loop on members that are sealed in the listed fields.
      abbrev Opened : List Bytes → Map Bytes Bytes → Map Bytes Bytes → Type 0
      Opened fields m x =
          (x' : Map Bytes Bytes) × (open_fields a j key fields x ≡ ok x')
          × ((f : Bytes) → contains f fields ≡ true → lookup f x' ≡ lookup f m)
          × ((f : Bytes) → contains f fields ≡ false → lookup f x' ≡ lookup f x)

      Covers-congr :
          (f : Bytes) (fs : List Bytes) (m m' x x' : Map Bytes Bytes)
          → ((g : Bytes) → g ≢ f → lookup g m' ≡ lookup g m)
          → ((g : Bytes) → g ≢ f → lookup g x' ≡ lookup g x)
          → All (λ g. g ≢ f) fs
          → Covers fs m x
          → Covers fs m' x'
      Covers-congr f [] m m' x x' em ex d h = tt
      Covers-congr f (g ∷ fs) m m' x x' em ex d h =
          (congr h.0, Covers-congr f fs m m' x x' em ex d.1 h.1)
        where
          congr : IsSealed g m x → IsSealed g m' x'
          congr (missing p q) = missing (em g d.0 ∙ p) (ex g d.0 ∙ q)
          congr (present raw enc p q o) = present raw enc (em g d.0 ∙ p) (ex g d.0 ∙ q) o

      Covers-same :
          (fs : List Bytes) (m x y : Map Bytes Bytes)
          → ((g : Bytes) → lookup g y ≡ map_value compact (lookup g x))
          → Covers fs m x
          → Covers fs m y
      Covers-same [] m x y same h = tt
      Covers-same (f ∷ fs) m x y same h = (congr h.0, Covers-same fs m x y same h.1)
        where
          congr : IsSealed f m x → IsSealed f m y
          congr (missing p q) = missing p (same f ∙ ap (map_value compact) q)
          congr (present raw enc p q (o, value, short)) =
              present raw enc p (same f ∙ ap (map_value compact) q ∙ ap some short)
                (o, value, short)

      Opened-cons :
          (f : Bytes) (fs : List Bytes) (m x y : Map Bytes Bytes)
          → All (λ g. g ≢ f) fs
          → open_fields a j key (f ∷ fs) x ≡ open_fields a j key fs y
          → lookup f y ≡ lookup f m
          → ((g : Bytes) → g ≢ f → lookup g y ≡ lookup g x)
          → Opened fs m y
          → Opened (f ∷ fs) m x
      Opened-cons f fs m x y d run here others (x', done, hit, miss) = (
        x',
        run ∙ done,
        λ g i. elim (Bool-cases (f == g)) [
          | inl e ↦
              let same = eq_of_beq f g e in rw (sym same) (miss f (contains-All f fs d) ∙ here)
          | inr e ↦ hit g (ground (arith, e, i))
        ],
        λ g i. elim (Bool-cases (f == g)) [
          | inl e ↦ ground (arith, e, i)
          | inr e ↦
              miss g (ground (arith, e, i)) ∙ others g (λ q. ground (arith, list_beq_iff f g, q, e))
        ],
      )

      open_fields-Opened :
          (fields : List Bytes) (m x : Map Bytes Bytes)
          → Distinct fields
          → Covers fields m x
          → Opened fields m x
      unfolding open_fields
      open_fields-Opened [] m x d h = (x, refl, (λ f i. cc), (λ f i. refl))
      open_fields-Opened (f ∷ fs) m x d h = opened h.0 (λ y c. open_fields-Opened fs m y d.1 c)
        where
          opened :
              IsSealed f m x
              → ((y : Map Bytes Bytes) → Covers fs m y → Opened fs m y)
              → Opened (f ∷ fs) m x
          opened (missing p q) rest =
              Opened-cons f fs m x x d.0 (rw (open_fields, q) refl) (q ∙ sym p) (λ g n. refl)
                (rest x h.1)
          opened (present raw enc p q o) rest =
              let y = insert f raw x in
              Opened-cons f fs m x y d.0 (rw (open_fields, q, o.0) refl)
                (lookup-insert_self f raw x ∙ sym p) (λ g n. lookup-insert_other f g raw x n)
                (rest y (
                  Covers-congr f fs m m x y (λ g n. refl) (λ g n. lookup-insert_other f g raw x n)
                    d.0 h.1))

      -- Seal's loop seals the listed fields, and leaves the others.
      seal_fields-Covers :
          (nonce : ℕ → Result Bytes) (i : ℕ) (fields : List Bytes) (m x : Map Bytes Bytes)
          → FillsNonce a nonce
          → Distinct fields
          → seal_fields a j nonce key i fields m ≡ ok x
          → Covers fields m x × ((g : Bytes) → contains g fields ≡ false → lookup g x ≡ lookup g m)
      unfolding seal_fields
      seal_fields-Covers nonce i [] m x fills d h =
          (tt, λ g n. ap (lookup g) (sym (ok-injective h)))
      seal_fields-Covers nonce i (f ∷ fs) m x fills d h =
          sealed (lookup f m) refl h (λ y r. seal_fields-Covers nonce (i + 1) fs y x fills d.1 r)
        where
          sealed :
              (o : Option Bytes)
              → lookup f m ≡ o
              → (elim o [
                | none ↦ seal_fields a j nonce key (i + 1) fs m
                | some raw ↦ seal_value a j (nonce i) key raw >>= λ enc.
                    seal_fields a j nonce key (i + 1) fs (insert f enc m)
              ])
                ≡ ok x
              → ((y : Map Bytes Bytes)
                  → seal_fields a j nonce key (i + 1) fs y ≡ ok x
                  → Covers fs y x × ((g : Bytes) → contains g fs ≡ false → lookup g x ≡ lookup g y))
              → Covers (f ∷ fs) m x
                × ((g : Bytes) → contains g (f ∷ fs) ≡ false → lookup g x ≡ lookup g m)
          sealed none p h' rest =
              let (covers, others) = rest m h' in
              (
                (missing p (others f (contains-All f fs d.0) ∙ p), covers),
                λ g n. others g (ground (arith, n)),
              )
          sealed (some raw) p h' rest =
              let (enc, value, h1) =
                >>=-eq-ok (seal_value a j (nonce i) key raw)
                  (λ enc. seal_fields a j nonce key (i + 1) fs (insert f enc m)) h' in
              let (covers, others) = rest (insert f enc m) h1 in
              let here = others f (contains-All f fs d.0) ∙ lookup-insert_self f enc m in
              (
                (
                  present raw enc p here (open-seal_value (nonce i) key raw enc (fills i) value),
                  Covers-congr f fs (insert f enc m) m x x
                      (λ g n. sym (lookup-insert_other f g enc m n)) (λ g n. refl) d.0 covers,
                ),
                λ g n.
                    others g (ground (arith, n))
                    ∙ lookup-insert_other f g enc m (λ q. ground (arith, list_beq_iff f g, q, n)),
              )

      Covers-at :
          (g : Bytes) (fields : List Bytes) (m x : Map Bytes Bytes)
          → Covers fields m x
          → contains g fields ≡ true
          → IsSealed g m x
      Covers-at g [] m x h i = cc
      Covers-at g (f ∷ fs) m x h i = elim (Bool-cases (f == g)) [
        | inl e ↦ subst (λ k. IsSealed k m x) (eq_of_beq f g e) h.0
        | inr e ↦ Covers-at g fs m x h.1 (ground (arith, e, i))
      ]

      sealed_member :
          (g v : Bytes) (m x : Map Bytes Bytes)
          → IsObj m
          → lookup g x ≡ some v
          → IsSealed g m x
          → IsText g × IsValue v
      sealed_member g v m x valid known (missing p q) = cc
      sealed_member g v m x valid known (present raw enc p q (o, value, short)) =
          let same : enc ≡ v = cc in ((valid g raw p).0, subst IsValue same value)

      -- The members that Seal's loop leaves are an object.
      pub seal_fields-IsObject :
          (nonce : ℕ → Result Bytes) (fields : List Bytes) (m x : Map Bytes Bytes)
          → FillsNonce a nonce
          → Distinct fields
          → IsObj m
          → seal_fields a j nonce key 0 fields m ≡ ok x
          → IsObj x
      seal_fields-IsObject nonce fields m x fills d valid h g v known =
          let (covers, others) = seal_fields-Covers nonce 0 fields m x fills d h in
          elim (Bool-cases (contains g fields)) [
            | inl e ↦ sealed_member g v m x valid known (Covers-at g fields m x covers e)
            | inr e ↦ valid g v (sym (others g e) ∙ known)
          ]

      compact_member :
          (g v : Bytes) (o : Option Bytes)
          → ((w : Bytes) → o ≡ some w → IsText g × IsValue w)
          → map_value compact o ≡ some v
          → IsText g × IsValue v
      compact_member g v none valid h = cc
      compact_member g v (some w) valid h =
          let (text, value) = valid w refl in
          let same : compact w ≡ v = cc in (text, subst IsValue same (vj.compact_value w value))

      compact_again :
          (o : Option Bytes) → map_value compact (map_value compact o) ≡ map_value compact o
      compact_again none = refl
      compact_again (some v) = ap some (vj.compact_twice v)

      -- Opening what Seal's loop wrote gives every member back, in its compact form at the latest
      -- when it is written.
      pub open-seal_fields :
          (nonce : ℕ → Result Bytes) (fields : List Bytes) (m x y : Map Bytes Bytes)
          → FillsNonce a nonce
          → Distinct fields
          → IsObj m
          → seal_fields a j nonce key 0 fields m ≡ ok x
          → ((g : Bytes) → lookup g y ≡ map_value compact (lookup g x))
          → (z : Map Bytes Bytes) × (open_fields a j key fields y ≡ ok z)
            × IsObj z
            × ((g : Bytes) → map_value compact (lookup g z) ≡ map_value compact (lookup g m))
      open-seal_fields nonce fields m x y fills d valid h same =
          let (covers, others) = seal_fields-Covers nonce 0 fields m x fills d h in
          let (z, opened, hit, miss) =
            open_fields-Opened fields m y d (Covers-same fields m x y same covers) in
          let rest : (g : Bytes)
              → contains g fields ≡ false
              → lookup g z ≡ map_value compact (lookup g m) =
            λ g e. miss g e ∙ same g ∙ ap (map_value compact) (others g e) in
          (
            z,
            opened,
            λ g v known. elim (Bool-cases (contains g fields)) [
              | inl e ↦ valid g v (sym (hit g e) ∙ known)
              | inr e ↦ compact_member g v (lookup g m) (valid g) (sym (rest g e) ∙ known)
            ],
            λ g. elim (Bool-cases (contains g fields)) [
              | inl e ↦ ap (map_value compact) (hit g e)
              | inr e ↦ ap (map_value compact) (rest g e) ∙ compact_again (lookup g m)
            ],
          )
