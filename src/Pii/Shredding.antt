-- ===== src/Pii/Shredding.antt =====
-- PiiAnonymizer of es/pii.go over the in-memory ring: Open undoes Seal until the subject is forgotten.
use go_es_light.Base.{
  delete, ℕ, ◌≡◌, ◌≢◌, refl, ap, sym, ◌∙◌, Bool, Option, none, some, List, [], ◌∷◌, Map, lookup,
  insert, lookup-insert_self, lookup-delete_self, list_eq, nat_eq, Distinct, All, Bytes, Result, ok,
  err,
}
use mathlib.Core.Path.{subst}
use go_es_light.Event.{DomainEvent}
use go_es_light.Json.{Json}
use go_es_light.KeyRing
use go_es_light.KeyRing.{MemoryKeys, memory_keys}
use go_es_light.Pii.{
  Aead, Draws, seal_fields, seal_with, seal_members, seal_encoded, seal_manifest, open_with, seal,
  seal_fields_of, sealed, issue_key, key_or_issue, open_event, open_marked, forget,
}
use go_es_light.Pii.Codecs.{IsAead, IsJson, IsObject, map_value, FillsNonce}
use go_es_light.Pii.RoundTrip.{seal_fields-IsObject, open-seal_fields}

module _ (a : Aead) (j : Json) where
  open_mark :
      (p : ℕ) (mf : Bytes) (f : Bytes) (fs : List Bytes) (e : DomainEvent) (k : MemoryKeys)
      → mf ≢ []
      → j.decode_manifest mf ≡ ok (f ∷ fs)
      → open_marked a j memory_keys (some p) mf e k ≡ open_with a j (f ∷ fs) e (ok (lookup p k))
  unfolding KeyRing.get
  open_mark p [] f fs e k some_bytes listed = absurd (some_bytes refl)
  open_mark p (b ∷ bs) f fs e k some_bytes listed = rw listed refl

  -- Once the subject of an event is forgotten, Open returns the event as it is stored, marked as
  -- unrecoverable, and no error; the event has a subject and a manifest that lists a field.
  pub open-forget :
      (e : DomainEvent) (p : ℕ) (f : Bytes) (fs : List Bytes) (k : MemoryKeys)
      → e.pii_id ≡ some p
      → e.pii_fields ≢ []
      → j.decode_manifest e.pii_fields ≡ ok (f ∷ fs)
      → open_event a j memory_keys e (forget a j memory_keys p k).1
        ≡ ok (record e { pii_unrecoverable = Bool.true })
  unfolding open_event forget KeyRing.forget
  open-forget e p f fs k subject some_bytes listed =
      ap (λ o. open_marked a j memory_keys o e.pii_fields e (delete p k)) subject
      ∙ open_mark p e.pii_fields f fs e (delete p k) some_bytes listed
      ∙ ap (λ o. open_with a j (f ∷ fs) e (ok o)) (lookup-delete_self p k)

module _ (a : Aead) (j : Json) (compact : Bytes → Bytes) (IsText IsValue : Bytes → Type 0) where
  -- What a Seal that succeeds has written into the event.
  record SealedAs (d : Draws) (fields : List Bytes) (key : Bytes) (m : Map Bytes Bytes)
      (e e' : DomainEvent) : Type 0 where
    members : Map Bytes Bytes
    payload : Bytes
    manifest : Bytes
    loop : seal_fields a j d.nonce key 0 fields m ≡ ok members
    encoded : j.encode_object members ≡ ok payload
    listed : j.encode_manifest fields ≡ ok manifest
    event : e' ≡ record e { payload = payload; pii_fields = manifest }

  seal_with-SealedAs :
      (d : Draws) (fields : List Bytes) (key : Bytes) (m : Map Bytes Bytes) (e : DomainEvent)
      → j.decode_object e.payload ≡ ok m
      → (seal_with a j d fields key e).0 ≡ ok tt
      → SealedAs d fields key m e (seal_with a j d fields key e).1
  unfolding seal_with
  seal_with-SealedAs d fields key m e decoded h =
      rw decoded (looped (seal_fields a j d.nonce key 0 fields m) refl (rw decoded at h))
    where
      manifest_made :
          (x : Map Bytes Bytes) (b : Bytes)
          → seal_fields a j d.nonce key 0 fields m ≡ ok x
          → j.encode_object x ≡ ok b
          → (o : Result Bytes) → j.encode_manifest fields ≡ o
          → (seal_manifest a j (record e { payload = b }) o).0 ≡ ok tt
          → SealedAs d fields key m e (seal_manifest a j (record e { payload = b }) o).1
      manifest_made x b loop encoded (err y) listed h' = cc
      manifest_made x b loop encoded (ok mf) listed h' = record {
        members = x;
        payload = b;
        manifest = mf;
        loop = loop;
        encoded = encoded;
        listed = listed;
        event = refl;
      }

      object_made :
          (x : Map Bytes Bytes)
          → seal_fields a j d.nonce key 0 fields m ≡ ok x
          → (o : Result Bytes) → j.encode_object x ≡ o
          → (seal_encoded a j fields e o).0 ≡ ok tt
          → SealedAs d fields key m e (seal_encoded a j fields e o).1
      object_made x loop (err y) encoded h' = cc
      object_made x loop (ok b) encoded h' =
          manifest_made x b loop encoded (j.encode_manifest fields) refl h'

      looped :
          (o : Result (Map Bytes Bytes))
          → seal_fields a j d.nonce key 0 fields m ≡ o
          → (seal_members a j fields e o).0 ≡ ok tt
          → SealedAs d fields key m e (seal_members a j fields e o).1
      looped (err y) loop h' = cc
      looped (ok x) loop h' = object_made x loop (j.encode_object x) refl h'

  manifest_some :
      (fields : List Bytes) (mf : Bytes)
      → IsJson j compact IsText IsValue
      → j.encode_manifest fields ≡ ok mf
      → mf ≢ []
  manifest_some fields mf vj h z = vj.manifest_some fields (h ∙ ap ok z)

  -- What a sealed event opens to, as long as the ring has its key.
  abbrev Restored : MemoryKeys → Map Bytes Bytes → DomainEvent → Type 0
  Restored k m e =
      (o : DomainEvent) × (open_event a j memory_keys e k ≡ ok o)
      × ((n : Map Bytes Bytes) × (j.decode_object o.payload ≡ ok n)
          × ((g : Bytes) → lookup g n ≡ map_value compact (lookup g m)))

  open-SealedAs :
      (d : Draws) (f : Bytes) (fs : List Bytes) (key : Bytes) (m : Map Bytes Bytes)
      (e e' : DomainEvent) (p : ℕ) (k : MemoryKeys)
      → IsAead a IsText
      → IsJson j compact IsText IsValue
      → FillsNonce a d.nonce
      → Distinct (f ∷ fs)
      → All IsText (f ∷ fs)
      → e.pii_id ≡ some p
      → lookup p k ≡ some key
      → IsObject IsText IsValue m
      → SealedAs d (f ∷ fs) key m e e'
      → Restored k m e'
  unfolding open_event
  open-SealedAs d f fs key m e e' p k va vj fills distinct texts subject known valid s =
      let sound =
        seal_fields-IsObject a IsText va j compact IsValue vj key d.nonce (f ∷ fs) m s.members fills
          distinct valid s.loop in
      let (y, stored, same) = vj.object s.members s.payload sound s.encoded in
      let (z, opened, valid', back) =
        open-seal_fields a IsText va j compact IsValue vj key d.nonce (f ∷ fs) m s.members y fills
          distinct valid s.loop same in
      let (b, written) = vj.encodes z valid' in
      let (n, read, kept) = vj.object z b valid' written in
      let e'' = record e { payload = s.payload; pii_fields = s.manifest } in
      let marked =
        open_mark a j p s.manifest f fs e'' k (manifest_some (f ∷ fs) s.manifest vj s.listed)
          (vj.manifest (f ∷ fs) s.manifest texts s.listed) in
      let run : open_with a j (f ∷ fs) e'' (ok (lookup p k)) ≡ ok (record e'' { payload = b }) =
        rw (known, stored, opened, written) refl in
      (
        record e'' { payload = b },
        rw s.event
            (ap (λ o. open_marked a j memory_keys o s.manifest e'' k) subject ∙ marked ∙ run),
        (n, read, λ g. kept g ∙ back g),
      )

  -- The key that Seal uses is the one that the ring then has.
  sealed-Restored :
      (d : Draws) (f : Bytes) (fs : List Bytes) (m : Map Bytes Bytes) (e : DomainEvent) (p : ℕ)
      (key : Bytes) (k : MemoryKeys)
      → IsAead a IsText
      → IsJson j compact IsText IsValue
      → FillsNonce a d.nonce
      → Distinct (f ∷ fs)
      → All IsText (f ∷ fs)
      → e.pii_id ≡ some p
      → j.decode_object e.payload ≡ ok m
      → lookup p k ≡ some key
      → let r = sealed a j memory_keys d (f ∷ fs) e (ok key, k) in r.0 ≡ ok tt → Restored r.2 m r.1
  sealed-Restored d f fs m e p key k va vj fills distinct texts subject decoded known h =
      open-SealedAs d f fs key m e (seal_with a j d (f ∷ fs) key e).1 p k va vj fills distinct texts
        subject known (vj.decodes e.payload m decoded)
        (seal_with-SealedAs d (f ∷ fs) key m e decoded h)

  seal_subject :
      (d : Draws) (f : Bytes) (fs : List Bytes) (e : DomainEvent) (p : ℕ) (k : MemoryKeys)
      → e.pii_id ≡ some p
      → seal a j memory_keys d (some (f ∷ fs)) e k
        ≡ sealed a j memory_keys d (f ∷ fs) e (key_or_issue a j memory_keys p d (ok (lookup p k)) k)
  unfolding seal KeyRing.get
  seal_subject d f fs e p k subject =
      ap (λ o. seal_fields_of a j memory_keys d o (f ∷ fs) e k) subject

  -- Over the in-memory ring, an event that Seal has sealed opens, without an error, to the members
  -- that it had, in the compact form that encoding/json gives the values of an object, with the key
  -- that Seal found or issued. The fields are listed once and are text, the payload is a JSON object
  -- and Seal succeeded. GCM and base64 undo what they did; encoding/json reads what it decodes as
  -- text and JSON values, writes an object of these without an error and reads it back compact,
  -- and reads text back; a drawn nonce has the size of a nonce.
  pub open-seal :
      (d : Draws) (f : Bytes) (fs : List Bytes) (m : Map Bytes Bytes) (e : DomainEvent) (p : ℕ)
      (k : MemoryKeys)
      → IsAead a IsText
      → IsJson j compact IsText IsValue
      → FillsNonce a d.nonce
      → Distinct (f ∷ fs)
      → All IsText (f ∷ fs)
      → e.pii_id ≡ some p
      → j.decode_object e.payload ≡ ok m
      → (seal a j memory_keys d (some (f ∷ fs)) e k).0 ≡ ok tt
      → (o : DomainEvent) × (open_event a j memory_keys
            (seal a j memory_keys d (some (f ∷ fs)) e k).1
            (seal a j memory_keys d (some (f ∷ fs)) e k).2
          ≡ ok o)
        × ((n : Map Bytes Bytes) × (j.decode_object o.payload ≡ ok n)
            × ((g : Bytes) → lookup g n ≡ map_value compact (lookup g m)))
  unfolding seal KeyRing.get KeyRing.put
  open-seal d f fs m e p k va vj fills distinct texts subject decoded h =
      let run = seal_subject d f fs e p k subject in
      subst (λ r. Restored r.2 m r.1) (sym run)
        (found (lookup p k) refl
          (ap (λ (r : Result (Unit {0}) × DomainEvent × MemoryKeys). r.0) (sym run) ∙ h))
    where
      issued :
          (o : Result Bytes)
          → let r = sealed a j memory_keys d (f ∷ fs) e (issue_key a j memory_keys p o k) in
            r.0 ≡ ok tt → Restored r.2 m r.1
      issued (err x) h' = cc
      issued (ok key) h' =
          sealed-Restored d f fs m e p key (insert p key k) va vj fills distinct texts subject
            decoded (lookup-insert_self p key k) h'

      found :
          (o : Option Bytes)
          → lookup p k ≡ o
          → let r =
              sealed a j memory_keys d (f ∷ fs) e (key_or_issue a j memory_keys p d (ok o) k) in
            r.0 ≡ ok tt → Restored r.2 m r.1
      found none q h' = issued d.key h'
      found (some key) q h' =
          sealed-Restored d f fs m e p key k va vj fills distinct texts subject decoded q h'
