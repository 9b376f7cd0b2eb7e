-- ===== src/Examples/Privacy.antt =====
-- es/pii.go at concrete inputs: an event with one personal field, a plain text in place of JSON, and
-- a cipher that changes nothing.
use go_es_light.Base.{
  Option, list_eq, nat_eq, ℕ, zero, suc, ◌≡◌, refl, ap, sym, ◌∙◌, Bool, none, some, List, [], ◌∷◌,
  ◌++◌, Map, All, lookup_or, lookup, insert, length, Bytes, ok, ok-injective,
}
use go_es_light.Int.{pos}
use go_es_light.Event.{DomainEvent}
use go_es_light.Json.{Json}
use go_es_light.KeyRing
use go_es_light.KeyRing.{MemoryKeys, memory_keys}
use go_es_light.StoreConfig.{resolve_store_config, apply_options}
use go_es_light.Aggregate.{Registry, factory}
use go_es_light.Memstore
use go_es_light.Memstore.{Store, memory_store, commit_stamped, append_events, append_event}
use go_es_light.PiiStore
use go_es_light.PiiStore.{Payloads, PiiEventStore, payload_for, seal_events, erase_requested}
use go_es_light.PiiStore.Erasure.{Erased, commit-Erased}
use go_es_light.Pii
use go_es_light.Pii.{
  Aead, Draws, pii_encrypt, seal_value, seal_fields, seal_with, seal, open_event, forget,
}
use go_es_light.Pii.Codecs.{IsAead, IsJson, map_value, FillsNonce}
use go_es_light.Pii.Shredding.{open-seal, open-forget}

-- A text that ends with 0, its bytes raised by one.
abbrev mark : Bytes → Bytes
mark [] = 0 ∷ []
mark (x ∷ l) = suc x ∷ mark l

abbrev join : List Bytes → Bytes
join [] = []
join (l ∷ ls) = mark l ++ join ls

abbrev prepend : ℕ → List Bytes → List Bytes
prepend x [] = (x ∷ []) ∷ []
prepend x (l ∷ ls) = (x ∷ l) ∷ ls

abbrev split : Bytes → List Bytes
split [] = []
split (zero ∷ s) = [] ∷ split s
split (suc x ∷ s) = prepend x (split s)

split-mark : (l s : Bytes) → split (mark l ++ s) ≡ l ∷ split s
split-mark [] s = refl
split-mark (x ∷ l) s = ap (prepend x) (split-mark l s)

split-join : (ls : List Bytes) → split (join ls) ≡ ls
split-join [] = refl
split-join (l ∷ ls) = split-mark l (join ls) ∙ ap (◌∷◌ l) (split-join ls)

abbrev flat : Map Bytes Bytes → List Bytes
flat [] = []
flat ((k, v) ∷ m) = k ∷ v ∷ flat m

abbrev paired : List Bytes → Map Bytes Bytes
paired (k ∷ v ∷ ls) = (k, v) ∷ paired ls
paired _ = []

paired-flat : (m : Map Bytes Bytes) → paired (flat m) ≡ m
paired-flat [] = refl
paired-flat ((k, v) ∷ m) = ap (◌∷◌ (k, v)) (paired-flat m)

abbrev unlisted : Bytes → List Bytes
unlisted [] = []
unlisted (b ∷ bs) = split bs

abbrev texts : Json
texts = record {
  decode_object = λ b. ok (paired (split b));
  encode_object = λ m. ok (join (flat m));
  decode_string = λ b. ok b;
  encode_string = λ b. ok b;
  decode_manifest = λ b. ok (unlisted b);
  encode_manifest = λ l. ok (0 ∷ join l);
}

abbrev AnyBytes : Bytes → Type 0
AnyBytes b = Unit

texts-IsJson : IsJson texts (λ v. v) AnyBytes AnyBytes
texts-IsJson = record {
  object = λ m b valid h. (
    m,
    ap (λ c. ok (paired (split c))) (sym (ok-injective h))
        ∙ ap (λ l. ok (paired l)) (split-join (flat m))
        ∙ ap ok (paired-flat m),
    λ k. same (lookup k m),
  );
  string = λ s b text h. (sym h, tt, refl);
  decodes = λ b m h k v known. (tt, tt);
  compact_value = λ v h. tt;
  compact_twice = λ v. refl;
  manifest =
      λ l b texts' h. ap (λ c. ok (unlisted c)) (sym (ok-injective h)) ∙ ap ok (split-join l);
  manifest_some = λ l h. cc;
  encodes = λ m valid. (join (flat m), refl);
}
  where
    same : (o : Option Bytes) → o ≡ map_value (λ v. v) o
    same none = refl
    same (some v) = refl

abbrev plain : Aead
plain = record {
  check_key = λ key. ok tt;
  nonce_size = 1;
  seal = λ key n p. p;
  open_sealed = λ key n c. ok c;
  encode = λ b. b;
  decode = λ b. ok b;
}

plain-IsAead : IsAead plain AnyBytes
plain-IsAead = record {
  open_seal = λ key n p. refl;
  decode_encode = λ b. refl;
  encode_text = λ b. tt;
}

abbrev draws : Draws
draws = record { key = ok (7 ∷ []); nonce = λ i. ok (i ∷ []) }

draws-FillsNonce : FillsNonce plain draws.nonce
draws-FillsNonce = λ i n h. ap length (sym (ok-injective h))

abbrev email : Bytes
email = 101 ∷ []

abbrev members : Map Bytes Bytes
members = (email, 97 ∷ []) ∷ (110 ∷ [], 98 ∷ []) ∷ []

abbrev registered : Bytes → Bytes → DomainEvent
registered payload manifest = record {
  global_id = 1;
  id = 1;
  tenant_id = 0;
  aggregate_id = 5;
  aggregate_version = 1;
  version = pos 1;
  name = 65 ∷ [];
  payload = payload;
  metadata = [];
  actor_id = none;
  actor_type = none;
  pii_id = some 5;
  pii_fields = manifest;
  pii_unrecoverable = Bool.false;
  occurred_at = 0;
}

abbrev unsealed : DomainEvent
unsealed = registered (join (flat members)) []

sealed_ok : (seal plain texts memory_keys draws (some (email ∷ [])) unsealed []).0 ≡ ok tt
unfolding seal seal_with seal_fields seal_value pii_encrypt KeyRing.get KeyRing.put lookup insert
sealed_ok = refl

open-seal_example :
    (o : DomainEvent) × (open_event plain texts memory_keys
        (seal plain texts memory_keys draws (some (email ∷ [])) unsealed []).1
        (seal plain texts memory_keys draws (some (email ∷ [])) unsealed []).2
      ≡ ok o)
    × ((n : Map Bytes Bytes) × (texts.decode_object o.payload ≡ ok n)
        × ((g : Bytes) → lookup g n ≡ map_value (λ v. v) (lookup g members)))
open-seal_example =
    open-seal plain texts (λ v. v) AnyBytes AnyBytes draws email [] members unsealed 5 []
      plain-IsAead texts-IsJson draws-FillsNonce (tt, tt) (tt, tt) refl refl sealed_ok

open-forget_example :
    open_event plain texts memory_keys
      (registered (join (flat members)) (0 ∷ join (email ∷ [])))
      (forget plain texts memory_keys 5 ((5, 7 ∷ []) ∷ [])).1
    ≡ ok (record (registered (join (flat members)) (0 ∷ join (email ∷ []))) {
      pii_unrecoverable = Bool.true;
    })
open-forget_example =
    open-forget plain texts (registered (join (flat members)) (0 ∷ join (email ∷ []))) 5 email []
      ((5, 7 ∷ []) ∷ []) refl (λ h. cc) refl

-- Every event of this registry asks for erasure, and none has personal fields.
abbrev requests : Payloads ℕ
requests = record {
  unmarshalled = λ b e. e;
  pii_fields = λ e. none;
  requests_erasure = λ e. Bool.true;
}

abbrev request_types : Registry ℕ
request_types = (65 ∷ [], 0) ∷ []

abbrev before : PiiEventStore Store MemoryKeys ℕ
before = record { store = Memstore.new; keys = (5, 7 ∷ []) ∷ []; ledger = 0 }

erasure_committed :
    (PiiStore.commit requests request_types plain texts memory_keys memory_store none
      (λ i. draws)
      (λ i. 0)
      (unsealed ∷ [])
      0
      []
      before).result
    ≡ ok tt
unfolding PiiStore.commit seal_events erase_requested payload_for factory lookup lookup_or seal
    Pii.forget KeyRing.forget Memstore.commit commit_stamped append_events append_event Memstore.new
    resolve_store_config apply_options
erasure_committed = refl

commit-Erased_example :
    All
      (Erased {L = ℕ} requests request_types plain texts memory_store none
        (PiiStore.commit requests request_types plain texts memory_keys memory_store none
          (λ i. draws)
          (λ i. 0)
          (unsealed ∷ [])
          0
          []
          before).store.keys)
      (PiiStore.commit requests request_types plain texts memory_keys memory_store none
        (λ i. draws)
        (λ i. 0)
        (unsealed ∷ [])
        0
        []
        before).events
commit-Erased_example =
    commit-Erased requests request_types plain texts memory_store none (λ i. draws) (λ i. 0)
      (unsealed ∷ []) 0 [] before erasure_committed
