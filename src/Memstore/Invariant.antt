-- ===== src/Memstore/Invariant.antt =====
-- The invariant of the in-memory store (es/memstore/eventstore.go): the log is numbered without
-- gaps, and the two indexes are filters of the log. Commit keeps it.
use go_es_light.Base.{
  ℕ, suc, ◌+◌, ◌≡◌, refl, Bool, Option, none, some, List, [], ◌∷◌, ◌++◌, length, length-append,
  filter, filter-append, if◌then◌else◌, lookup, lookup_or, lookup_or-insert, arith, nat_eq,
  option_eq, option_beq, nat_beq_iff, append-nil,
}
use go_es_light.Event.{DomainEvent}
use go_es_light.Memstore.{
  Store, AggregateKey, key_beq, key_beq_iff, key_eq, key_of, current, index_pii, append_event, new,
}

-- The GlobalIDs of the list are n + 1, n + 2, and so on.
abbrev pub Numbered : ℕ → List DomainEvent → Type 0
Numbered n [] = Unit
Numbered n (e ∷ es) = (e.global_id ≡ n + 1) × Numbered (n + 1) es

pub Numbered-append :
    (n : ℕ) (xs ys : List DomainEvent)
    → Numbered n xs
    → Numbered (n + length xs) ys
    → Numbered n (xs ++ ys)
Numbered-append n [] ys hx hy = let e : n + 0 ≡ n = omega arith in rw e at hy
Numbered-append n (x ∷ xs) ys hx hy =
    let e : n + suc (length xs) ≡ n + 1 + length xs = omega arith in
    (hx.0, Numbered-append (n + 1) xs ys hx.1 (rw e at hy))

abbrev pub in_stream : AggregateKey → DomainEvent → Bool
in_stream k e = key_beq (key_of e) k

abbrev pub of_subject : ℕ → DomainEvent → Bool
of_subject p e = option_beq e.pii_id (some p)

pub record IsValid (s : Store) : Type 0 where
  pub numbered : Numbered 0 s.all
  pub next : s.next_global_id ≡ length s.all
  pub streams : (k : AggregateKey) → current k s ≡ filter (in_stream k) s.all
  pub subjects : (p : ℕ) → lookup_or [] p s.by_pii ≡ filter (of_subject p) s.all

pub new-IsValid : IsValid new
unfolding new lookup lookup_or
new-IsValid = record { numbered = tt; next = refl; streams = λ k. refl; subjects = λ p. refl }

pub current-append_event :
    (key k : AggregateKey) (e : DomainEvent) (s : Store)
    → current k (append_event key e s)
      ≡ (if key_beq key k then current key s ++ e ∷ [] else current k s)
unfolding append_event
current-append_event key k e s =
    rw (lookup_or-insert [] key k (current key s ++ e ∷ []) s.by_aggregate)

by_pii-index_pii :
    (o : Option ℕ) (e : DomainEvent) (p : ℕ) (m : List (ℕ × List DomainEvent))
    → lookup_or [] p (index_pii o e m)
      ≡ (if option_beq o (some p) then lookup_or [] p m ++ e ∷ [] else lookup_or [] p m)
by_pii-index_pii none e p m = refl
by_pii-index_pii (some q) e p m =
    ground (arith, lookup_or-insert [] q p (lookup_or [] q m ++ e ∷ []) m, nat_beq_iff q p)

module _ (s : Store) (e : DomainEvent) (v : IsValid s) (next : e.global_id ≡ length s.all + 1) where
  pub append_event-IsValid : IsValid (append_event (key_of e) e s)
  unfolding append_event
  append_event-IsValid = record {
    numbered = Numbered-append 0 s.all (e ∷ []) v.numbered (omega arith, tt);
    next = omega (arith, next, length-append s.all (e ∷ []));
    streams = λ k. rw (filter-append (in_stream k) s.all (e ∷ [])) (
        ground (
          arith,
          current-append_event (key_of e) k e s,
          v.streams k,
          v.streams (key_of e),
          key_beq_iff (key_of e) k,
          append-nil (filter (in_stream k) s.all),
        ));
    subjects = λ p. rw (filter-append (of_subject p) s.all (e ∷ [])) (
        ground (
          arith,
          by_pii-index_pii e.pii_id e p s.by_pii,
          v.subjects p,
          append-nil (filter (of_subject p) s.all),
        ));
  }
