-- ===== src/Subject/Document.antt =====
-- SubjectExporter.Export and ExportJSON (es/pii_lookup.go, es/dsar.go): what the export says.
use go_es_light.Base.{
  ℕ, ◌≡◌, ◌≢◌, sym, inl, inr, Bool, true, false, ◌++◌, All, Option-cases, beq_self, append_assoc,
  if◌then◌else◌, refl, ap, ◌∙◌, none, some, List, [], ◌∷◌, map, filter, ◌==◌, Bytes, Result, ok,
  err, ◌>>=◌, nat_eq,
}
use mathlib.Core.Path.{subst}
use go_es_light.Event.{DomainEvent}
use go_es_light.StoreConfig.{StoreOption}
use go_es_light.Subject.{
  AggregateHistory, GroupKey, pair_eq, group_key, SubjectExport, group_events, no_groups, event_doc,
  aggregate_doc, document, export, export_json, DsarResponseDoc, DsarAggregateDoc,
}
use go_es_light.Subject.Grouping.{first_keys, history, index_of, IsDistinct, start-Tracks}

-- The groups of an export: one for each (tenant, aggregate), in the order of their first events,
-- with the events of that pair in their order.
abbrev pub groups_of : ℕ → List DomainEvent → SubjectExport
groups_of p events = record { pii_id = p; aggregates = map (history events) (first_keys [] events) }

-- What the document says of one tenant and aggregate.
abbrev pub entry : List DomainEvent → GroupKey → DsarAggregateDoc
entry events k = record {
  tenant_id = k.0;
  aggregate_id = k.1;
  events = map event_doc (filter (λ e. group_key e == k) events);
}

-- The document of the events found.
abbrev pub listing : ℕ → ℕ → List DomainEvent → DsarResponseDoc
listing now p events = record {
  pii_id = p;
  generated_at = now;
  aggregates = map (entry events) (first_keys [] events);
}

abbrev pub key_of_history : AggregateHistory → GroupKey
key_of_history h = (h.tenant_id, h.aggregate_id)

-- The key is one of the list.
abbrev pub IsListed : List GroupKey → GroupKey → Type 0
IsListed ks k = (i : ℕ) × (index_of k ks ≡ some i)

if-eq-nil {ℓ} :
    {A : Type ℓ} (b : Bool) (x : A) (l : List A) → (if b then x ∷ l else l) ≡ [] → l ≡ []
if-eq-nil true x l h = cc
if-eq-nil false x l h = h

filter-nonempty {ℓ} :
    {A : Type ℓ} (q : A → Bool) (xs : List A) (a : A) (ys : List A)
    → q a ≡ true
    → filter q (xs ++ a ∷ ys) ≢ []
filter-nonempty q [] a ys h e =
    let shown : a ∷ filter q ys ≡ [] =
      subst (λ b. (if b then a ∷ filter q ys else filter q ys) ≡ []) h e in
    cc
filter-nonempty q (x ∷ xs) a ys h e =
    filter-nonempty q xs a ys h (if-eq-nil (q x) x (filter q (xs ++ a ∷ ys)) e)

All-IsListed :
    (es : List DomainEvent) (ks : List GroupKey) (xs ys : List DomainEvent)
    → xs ++ ys ≡ es
    → ((k : GroupKey) → index_of k ks ≡ none → filter (λ e. group_key e == k) es ≡ [])
    → All (λ e. IsListed ks (group_key e)) ys
All-IsListed es ks xs [] split covered = tt
All-IsListed es ks xs (e ∷ ys) split covered = (
  elim (Option-cases (index_of (group_key e) ks)) [
    | inl absent ↦ absurd (
        filter-nonempty (λ x. group_key x == group_key e) xs e ys (beq_self (group_key e))
          (ap (filter (λ x. group_key x == group_key e)) split ∙ covered (group_key e) absent))
    | inr found ↦ found
  ],
  All-IsListed es ks (xs ++ e ∷ []) ys (append_assoc xs (e ∷ []) ys ∙ split) covered,
)

keys-map-history :
    (es : List DomainEvent) (ks : List GroupKey) → map key_of_history (map (history es) ks) ≡ ks
keys-map-history es [] = refl
keys-map-history es (k ∷ ks) = ap (◌∷◌ k) (keys-map-history es ks)

All-history :
    (es : List DomainEvent) (ks : List GroupKey)
    → All (λ h. h.events ≡ filter (λ e. group_key e == key_of_history h) es) (map (history es) ks)
All-history es [] = tt
All-history es (k ∷ ks) = (refl, All-history es ks)

map-aggregate_doc :
    (es : List DomainEvent) (ks : List GroupKey)
    → map aggregate_doc (map (history es) ks) ≡ map (entry es) ks
unfolding aggregate_doc
map-aggregate_doc es [] = refl
map-aggregate_doc es (k ∷ ks) = ap (◌∷◌ (entry es k)) (map-aggregate_doc es ks)

document-listing :
    (marshal : DsarResponseDoc → Result Bytes) (indent : Bytes → Result Bytes) (now p : ℕ)
    (r : Result (List DomainEvent))
    → (r
        >>= (λ events.
            ok (record { pii_id = p; aggregates = (group_events events no_groups).aggregates }))
        >>= λ x. marshal (document now x) >>= indent)
      ≡ (r >>= λ events. marshal (listing now p events) >>= indent)
unfolding document
document-listing marshal indent now p (err x) = refl
document-listing marshal indent now p (ok events) =
    ap (λ l. marshal (record { pii_id = p; generated_at = now; aggregates = l }) >>= indent)
      (ap (map aggregate_doc) (start-Tracks events).grouped
        ∙ map-aggregate_doc events (first_keys [] events))

module _ {S : Type 0} (fetch : ℕ → List StoreOption → S → Result (List DomainEvent)) where
  -- An Export whose lookup found events succeeds and loses nothing: no two of its histories are of
  -- the same tenant and aggregate, each history holds exactly the events found that are of its
  -- tenant and aggregate, in their order, and every event found is of one of the histories.
  pub export-Complete :
      (p : ℕ) (opts : List StoreOption) (s : S) (events : List DomainEvent)
      → fetch p opts s ≡ ok events
      → (x : SubjectExport) × (export fetch p opts s ≡ ok x)
        × (x.pii_id ≡ p)
        × IsDistinct (map key_of_history x.aggregates)
        × All (λ h. h.events ≡ filter (λ e. group_key e == key_of_history h) events) x.aggregates
        × All (λ e. IsListed (map key_of_history x.aggregates) (group_key e)) events
  unfolding export
  export-Complete p opts s events found =
      let t = start-Tracks events in
      let ks = first_keys [] events in
      let keys = keys-map-history events ks in
      (
        groups_of p events,
        rw found (ap (λ l. ok (record { pii_id = p; aggregates = l })) t.grouped),
        refl,
        subst IsDistinct (sym keys) t.distinct,
        All-history events ks,
        subst (λ l. All (λ e. IsListed l (group_key e)) events) (sym keys)
            (All-IsListed events ks [] events refl t.covered),
      )

  -- ExportJSON passes an error of the lookup on. Otherwise it marshals and indents the document with
  -- one entry for each tenant and aggregate, in the order in which they first occur among the
  -- events found, that lists the documents of exactly their events in order.
  pub export_json-eq-document :
      (marshal : DsarResponseDoc → Result Bytes) (indent : Bytes → Result Bytes) (now p : ℕ)
      (opts : List StoreOption) (s : S)
      → export_json fetch marshal indent now p opts s
        ≡ (fetch p opts s >>= λ events. marshal (listing now p events) >>= indent)
  unfolding export_json export
  export_json-eq-document marshal indent now p opts s =
      document-listing marshal indent now p (fetch p opts s)
