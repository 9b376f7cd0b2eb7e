-- ===== src/Subject/Grouping.antt =====
-- The loop of SubjectExporter.Export (es/pii_lookup.go) against a reference definition.
use go_es_light.Base.{
  ℕ, suc, ◌≡◌, refl, ap, sym, ◌∙◌, Bool, Bool-cases, inl, inr, true, false, Option, none, some,
  List, [], ◌∷◌, ◌++◌, append-nil, append_assoc, map, length, filter, filter-append, ◌==◌, lookup,
  lookup-insert, arith, ◌⊎◌, if◌then◌else◌, beq_self, eq_of_beq,
}
use mathlib.Core.Path.{ap₂, subst}
use go_es_light.Event.{DomainEvent}
use go_es_light.Subject.{
  GroupKey, pair_eq, pair_beq_iff, AggregateHistory, Groups, group_key, add_event, add_at, placed,
  no_groups, group_events,
}

-- Where a key stands in a list of keys.
abbrev pub later : Option ℕ → Option ℕ
later none = none
later (some i) = some (suc i)

abbrev pub index_of : GroupKey → List GroupKey → Option ℕ
index_of k [] = none
index_of k (x ∷ xs) = if x == k then some 0 else later (index_of k xs)

-- A key goes to the end of the list if it is not in it yet.
abbrev pub add_key : GroupKey → List GroupKey → List GroupKey
add_key k [] = k ∷ []
add_key k (x ∷ xs) = if x == k then x ∷ xs else x ∷ add_key k xs

-- The keys ks, then those of the events in the order in which they first occur.
unfoldable pub first_keys : List GroupKey → List DomainEvent → List GroupKey
first_keys ks [] = ks
first_keys ks (e ∷ es) = first_keys (add_key (group_key e) ks) es

-- The events of one tenant's aggregate.
abbrev pub history : List DomainEvent → GroupKey → AggregateHistory
history es k = record {
  tenant_id = k.0;
  aggregate_id = k.1;
  events = filter (λ e. group_key e == k) es;
}

abbrev pub IsDistinct : List GroupKey → Type 0
IsDistinct [] = Unit
IsDistinct (x ∷ xs) = (index_of x xs ≡ none) × IsDistinct xs

-- What the loop has built for the events xs, whose keys are ks.
pub record Tracks (g : Groups) (xs : List DomainEvent) (ks : List GroupKey) : Type 0 where
  pub grouped : g.aggregates ≡ map (history xs) ks
  pub indexed : (j : GroupKey) → lookup j g.first_seen ≡ index_of j ks
  pub distinct : IsDistinct ks
  pub covered : (j : GroupKey) → index_of j ks ≡ none → filter (λ e. group_key e == j) xs ≡ []

key_beq_sym : (a b : GroupKey) → (a == b) ≡ (b == a)
key_beq_sym a b = ground (arith, pair_beq_iff a b, pair_beq_iff b a)

later-eq-none :
    (b : Bool) (o : Option ℕ) → (if b then some 0 else later o) ≡ none → (b ≡ false) × (o ≡ none)
later-eq-none true o h = cc
later-eq-none false none h = (refl, refl)
later-eq-none false (some i) h = cc

later-eq-some :
    (b : Bool) (o : Option ℕ) (i : ℕ)
    → (if b then some 0 else later o) ≡ some i
    → ((b ≡ true) × (i ≡ 0)) ⊎ ((b ≡ false) × ((n : ℕ) × (o ≡ some n) × (i ≡ suc n)))
later-eq-some true o i h = inl (refl, cc)
later-eq-some false none i h = cc
later-eq-some false (some n) i h = inr (refl, (n, refl, cc))

module _ (xs : List DomainEvent) (e : DomainEvent) where
  history-hit :
      (k : GroupKey)
      → (group_key e == k) ≡ true
      → history (xs ++ e ∷ []) k ≡ add_event e (history xs k)
  history-hit k h =
      ap (λ l. record { tenant_id = k.0; aggregate_id = k.1; events = l })
        (filter-append (λ x. group_key x == k) xs (e ∷ []) ∙ rw h refl)

  history-miss :
      (k : GroupKey) → (group_key e == k) ≡ false → history (xs ++ e ∷ []) k ≡ history xs k
  history-miss k h =
      ap (λ l. record { tenant_id = k.0; aggregate_id = k.1; events = l })
        (filter-append (λ x. group_key x == k) xs (e ∷ [])
          ∙ rw h (append-nil (filter (λ x. group_key x == k) xs)))

  map-miss :
      (ks : List GroupKey)
      → index_of (group_key e) ks ≡ none
      → map (history (xs ++ e ∷ [])) ks ≡ map (history xs) ks
  map-miss [] h = refl
  map-miss (k ∷ ks) h =
      let (other, rest) = later-eq-none (k == group_key e) (index_of (group_key e) ks) h in
      ap₂ (λ x l. x ∷ l) (history-miss k (key_beq_sym (group_key e) k ∙ other)) (map-miss ks rest)

  add_at-known :
      (ks : List GroupKey) (i : ℕ)
      → IsDistinct ks
      → index_of (group_key e) ks ≡ some i
      → add_at i e (map (history xs) ks) ≡ map (history (xs ++ e ∷ [])) ks
  unfolding add_at
  add_at-known [] i d h = cc
  add_at-known (k ∷ ks) i d h =
      elim (later-eq-some (k == group_key e) (index_of (group_key e) ks) i h) [
        | inl (same, first) ↦
            subst
              (λ n. add_at n e (map (history xs) (k ∷ ks)) ≡ map (history (xs ++ e ∷ [])) (k ∷ ks))
              (sym first)
              (ap₂ (λ x l. x ∷ l) (sym (history-hit k (key_beq_sym (group_key e) k ∙ same)))
                (sym (
                  map-miss ks
                    (subst (λ z. index_of z ks ≡ none) (eq_of_beq k (group_key e) same) d.0))))
        | inr (other, (n, known, next)) ↦
            subst
              (λ n. add_at n e (map (history xs) (k ∷ ks)) ≡ map (history (xs ++ e ∷ [])) (k ∷ ks))
              (sym next)
              (ap₂ (λ x l. x ∷ l) (sym (history-miss k (key_beq_sym (group_key e) k ∙ other)))
                (add_at-known ks n d.1 known))
      ]

add_at-last :
    (hs : List AggregateHistory) (e : DomainEvent) (h : AggregateHistory)
    → add_at (length hs) e (hs ++ h ∷ []) ≡ hs ++ add_event e h ∷ []
unfolding add_at
add_at-last [] e h = refl
add_at-last (x ∷ hs) e h = ap (◌∷◌ x) (add_at-last hs e h)

add_key-absent :
    (k : GroupKey) (ks : List GroupKey) → index_of k ks ≡ none → add_key k ks ≡ ks ++ k ∷ []
add_key-absent k [] h = refl
add_key-absent k (x ∷ ks) h = ground (arith, add_key-absent k ks)

add_key-known :
    (k : GroupKey) (ks : List GroupKey) (i : ℕ) → index_of k ks ≡ some i → add_key k ks ≡ ks
add_key-known k [] i h = cc
add_key-known k (x ∷ ks) i h = elim (later-eq-some (x == k) (index_of k ks) i h) [
  | inl (same, first) ↦ rw same refl
  | inr (other, (n, known, next)) ↦ rw other (ap (◌∷◌ x) (add_key-known k ks n known))
]

later-if :
    (b : Bool) (n : ℕ) (o : Option ℕ)
    → later (if b then some n else o) ≡ (if b then some (suc n) else later o)
later-if true n o = refl
later-if false n o = refl

index_of-append :
    (j k : GroupKey) (ks : List GroupKey)
    → index_of k ks ≡ none
    → index_of j (ks ++ k ∷ []) ≡ (if k == j then some (length ks) else index_of j ks)
index_of-append j k [] h = refl
index_of-append j k (x ∷ ks) h =
    let (other, rest) = later-eq-none (x == k) (index_of k ks) h in
    elim (Bool-cases (x == j)) [
      | inl e ↦
          let distinct : (k == j) ≡ false =
            key_beq_sym k j ∙ subst (λ z. (z == k) ≡ false) (eq_of_beq x j e) other in
          rw e (rw distinct refl)
      | inr e ↦
          rw e
            (ap later (index_of-append j k ks rest) ∙ later-if (k == j) (length ks) (index_of j ks))
    ]

IsDistinct-append :
    (k : GroupKey) (ks : List GroupKey)
    → index_of k ks ≡ none
    → IsDistinct ks
    → IsDistinct (ks ++ k ∷ [])
IsDistinct-append k [] h d = (refl, tt)
IsDistinct-append k (x ∷ ks) h d =
    let (other, rest) = later-eq-none (x == k) (index_of k ks) h in
    let distinct : (k == x) ≡ false = key_beq_sym k x ∙ other in
    (index_of-append x k ks rest ∙ rw distinct d.0, IsDistinct-append k ks rest d.1)

if-eq-none :
    (b : Bool) (n : ℕ) (o : Option ℕ) → (if b then some n else o) ≡ none → (b ≡ false) × (o ≡ none)
if-eq-none true n o h = cc
if-eq-none false n o h = (refl, h)

index_of-miss :
    (j k : GroupKey) (ks : List GroupKey) (i : ℕ)
    → index_of k ks ≡ some i
    → index_of j ks ≡ none
    → (k == j) ≡ false
index_of-miss j k ks i known absent = elim (Bool-cases (k == j)) [
  | inl h ↦
      let same : index_of k ks ≡ none =
        subst (λ z. index_of z ks ≡ none) (sym (eq_of_beq k j h)) absent in
      cc
  | inr h ↦ h
]

map-snoc {ℓ κ} :
    {A : Type ℓ} {B : Type κ} (f : A → B) (l : List A) (a : A)
    → map f (l ++ a ∷ []) ≡ map f l ++ f a ∷ []
map-snoc f [] a = refl
map-snoc f (x ∷ l) a = ap (◌∷◌ (f x)) (map-snoc f l a)

length-map {ℓ κ} : {A : Type ℓ} {B : Type κ} (f : A → B) (l : List A) → length (map f l) ≡ length l
length-map f [] = refl
length-map f (x ∷ l) = ap suc (length-map f l)

-- A key that is new begins a history with its event alone.
new_history :
    {g : Groups} (xs : List DomainEvent) (ks : List GroupKey) (e : DomainEvent)
    → index_of (group_key e) ks ≡ none
    → Tracks g xs ks
    → add_event e (record { tenant_id = e.tenant_id; aggregate_id = e.aggregate_id; events = [] })
      ≡ history (xs ++ e ∷ []) (group_key e)
new_history xs ks e at t =
    ap
      (λ l.
        add_event e (record { tenant_id = e.tenant_id; aggregate_id = e.aggregate_id; events = l }))
      (sym (t.covered (group_key e) at))
    ∙ sym (history-hit xs e (group_key e) (beq_self (group_key e)))

-- One round of the loop.
placed-Tracks :
    (g : Groups) (xs : List DomainEvent) (ks : List GroupKey) (e : DomainEvent) (o : Option ℕ)
    → index_of (group_key e) ks ≡ o
    → Tracks g xs ks
    → Tracks (placed o e g) (xs ++ e ∷ []) (add_key (group_key e) ks)
unfolding placed
placed-Tracks g xs ks e (some i) at t =
    let same = add_key-known (group_key e) ks i at in
    subst (Tracks (placed (some i) e g) (xs ++ e ∷ [])) (sym same) (record {
      grouped = ap (add_at i e) t.grouped ∙ add_at-known xs e ks i t.distinct at;
      indexed = t.indexed;
      distinct = t.distinct;
      covered = λ j absent.
          ap (λ h. h.events) (history-miss xs e j (index_of-miss j (group_key e) ks i at absent))
          ∙ t.covered j absent;
    })
placed-Tracks g xs ks e none at t =
    let same = add_key-absent (group_key e) ks at in
    subst (Tracks (placed none e g) (xs ++ e ∷ [])) (sym same) (record {
      grouped =
          add_at-last g.aggregates e
            (record { tenant_id = e.tenant_id; aggregate_id = e.aggregate_id; events = [] })
          ∙ ap₂ (λ l x. l ++ x ∷ []) (t.grouped ∙ sym (map-miss xs e ks at))
              (new_history xs ks e at t)
          ∙ sym (map-snoc (history (xs ++ e ∷ [])) ks (group_key e));
      indexed = λ j.
          lookup-insert (group_key e) j (length g.aggregates) g.first_seen
          ∙ ap₂ (λ n o. if group_key e == j then some n else o)
              (ap length t.grouped ∙ length-map (history xs) ks) (t.indexed j)
          ∙ sym (index_of-append j (group_key e) ks at);
      distinct = IsDistinct-append (group_key e) ks at t.distinct;
      covered = λ j absent.
          let (other, rest) =
            if-eq-none (group_key e == j) (length ks) (index_of j ks)
              (sym (index_of-append j (group_key e) ks at) ∙ absent) in
          ap (λ h. h.events) (history-miss xs e j other) ∙ t.covered j rest;
    })

group_events-Tracks :
    (g : Groups) (xs : List DomainEvent) (ks : List GroupKey) (es : List DomainEvent)
    → Tracks g xs ks
    → Tracks (group_events es g) (xs ++ es) (first_keys ks es)
unfolding group_events first_keys
group_events-Tracks g xs ks [] t = subst (λ l. Tracks g l ks) (sym (append-nil xs)) t
group_events-Tracks g xs ks (e ∷ es) t =
    let o = lookup (group_key e) g.first_seen in
    let t' = placed-Tracks g xs ks e o (sym (t.indexed (group_key e))) t in
    subst
      (λ l. Tracks (group_events es (placed o e g)) l (first_keys (add_key (group_key e) ks) es))
      (append_assoc xs (e ∷ []) es)
      (group_events-Tracks (placed o e g) (xs ++ e ∷ []) (add_key (group_key e) ks) es t')

pub start-Tracks :
    (es : List DomainEvent) → Tracks (group_events es no_groups) es (first_keys [] es)
unfolding lookup
start-Tracks es =
    group_events-Tracks no_groups [] [] es
      (record { grouped = refl; indexed = λ j. refl; distinct = tt; covered = λ j h. refl })
