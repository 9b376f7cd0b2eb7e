-- ===== src/Memstore/Stream/Delivery.antt =====
-- What the reader of StreamAll (es/memstore/eventstore.go) has received, in every interleaving.
use go_es_light.Base.{
  ℕ, ◌≡◌, ap, sym, ◌∙◌, true, Option, some, List, [], ◌∷◌, ◌++◌, append-nil, lookup, insert,
  lookup-insert_self, lookup-insert_other, nat_eq, ◌==◌, inl, inr, Bool-cases, contains, map, arith,
  ◌≢◌, eq_of_beq,
}
use mathlib.Core.Path.{subst}
use go_es_light.Event.{DomainEvent}
use go_es_light.Memstore.{Store, number}
use go_es_light.Memstore.Stream.{
  Position, System, without, stream_all, Step, Reach, sent_backlog, replayed, skipped, taken,
  sent_live, cancelled_replaying, cancelled_receiving, cancelled_sending, unsubscribed, began,
  logged, published, published_all, ended, other_received, others,
}
use go_es_light.Memstore.Stream.Owed.{
  owed, owed-sent, owed-without_other, owed-without_self, subscribed,
}
use go_es_light.Memstore.Stream.Kept.{
  Kept, Kept-arrive, Kept-log, Running-Stopped, Running-take, sent, visible, visible-hidden,
  visible-shown,
}

module _ (tenant : Option ℕ) (ch : ℕ) where
  abbrev queue_of : System → Option (List DomainEvent)
  queue_of s = lookup ch s.store.subscribers

  abbrev pub Delivers : System → Type 0
  Delivers s = Kept tenant s.position s.received s.store.all (queue_of s) (owed ch s.publishing)

  stream_all-Delivers : (s : Store) → Delivers (stream_all tenant ch s)
  unfolding stream_all
  stream_all-Delivers s =
      ([], lookup-insert_self ch [] s.subscribers, append-nil (visible tenant s.all))

  -- The position of a state, put where it stands.
  at :
      (s : System) (p : Position)
      → s.position ≡ p
      → Delivers s
      → Kept tenant p s.received s.store.all (queue_of s) (owed ch s.publishing)
  at s p e h =
      subst (λ x. Kept tenant x s.received s.store.all (queue_of s) (owed ch s.publishing)) e h

  published-Delivers :
      (s : System) (e : DomainEvent) (c : ℕ) (cs : List ℕ) (q : List DomainEvent)
      → s.publishing ≡ some (e, cs)
      → contains c cs ≡ true
      → lookup c s.store.subscribers ≡ some q
      → Delivers s
      → Kept tenant s.position s.received s.store.all
          (lookup ch (insert c (q ++ e ∷ []) s.store.subscribers))
          (owed ch (some (e, without c cs)))
  published-Delivers s e c cs q sending listed known h = elim (Bool-cases (c == ch)) [
    | inl here ↦
        let same : c ≡ ch = eq_of_beq c ch here in
        let due : owed ch s.publishing ≡ e ∷ [] =
          ap (owed ch) sending
          ∙ owed-sent ch e cs (subst (λ k. contains k cs ≡ true) same listed) in
        Kept-arrive tenant s.position s.received s.store.all q (queue_of s)
          (lookup ch (insert c (q ++ e ∷ []) s.store.subscribers)) (owed ch s.publishing)
          (owed ch (some (e, without c cs)))
          (ap (λ k. lookup k s.store.subscribers) (sym same) ∙ known)
          (ap (λ k. lookup k (insert c (q ++ e ∷ []) s.store.subscribers)) (sym same)
            ∙ lookup-insert_self c (q ++ e ∷ []) s.store.subscribers
            ∙ ap (λ v. some (q ++ v)) (sym due))
          (ap (λ k. owed ch (some (e, without k cs))) same ∙ owed-without_self ch e cs) h
    | inr there ↦
        let other : c ≢ ch = ground arith in
        subst (Kept tenant s.position s.received s.store.all _)
          (ap (owed ch) sending ∙ sym (owed-without_other c ch e cs other))
          (subst (λ o. Kept tenant s.position s.received s.store.all o (owed ch s.publishing))
            (sym (lookup-insert_other c ch (q ++ e ∷ []) s.store.subscribers (λ z. other (sym z))))
            h)
  ]

  Step-Delivers : {s t : System} → Step tenant ch s t → Delivers s → Delivers t
  Step-Delivers {s} (sent_backlog e es p) h =
      let (q, known, eq) = at s (Position.replaying (e ∷ es)) p h in
      (
        q,
        known,
        sent tenant s.received s.store.all (es ++ visible tenant (q ++ owed ch s.publishing)) e eq,
      )
  Step-Delivers {s} (replayed p) h = at s (Position.replaying []) p h
  Step-Delivers {s} (skipped e q p known hidden) h =
      let u = owed ch s.publishing in
      let eq =
        Running-take tenant s.received s.store.all q (queue_of s) u e known
          (at s Position.receiving p h) in
      subst
        (λ x. Kept tenant x s.received s.store.all (lookup ch (insert ch q s.store.subscribers)) u)
        (sym p)
        (
          q,
          lookup-insert_self ch q s.store.subscribers,
          ap (◌++◌ s.received) (sym (visible-hidden tenant e (q ++ u) hidden)) ∙ eq,
        )
  Step-Delivers {s} (taken e q p known shown) h =
      let u = owed ch s.publishing in
      let eq =
        Running-take tenant s.received s.store.all q (queue_of s) u e known
          (at s Position.receiving p h) in
      (
        q,
        lookup-insert_self ch q s.store.subscribers,
        ap (◌++◌ s.received) (sym (visible-shown tenant e (q ++ u) shown)) ∙ eq,
      )
  Step-Delivers {s} (sent_live e p) h =
      let (q, known, eq) = at s (Position.sending e) p h in
      (
        q,
        known,
        sent tenant s.received s.store.all (visible tenant (q ++ owed ch s.publishing)) e eq,
      )
  Step-Delivers {s} (cancelled_replaying e es p) h =
      Running-Stopped tenant (Position.replaying (e ∷ es)) s.received s.store.all (queue_of s)
        (owed ch s.publishing) (at s (Position.replaying (e ∷ es)) p h)
  Step-Delivers {s} (cancelled_receiving p) h =
      Running-Stopped tenant Position.receiving s.received s.store.all (queue_of s)
        (owed ch s.publishing) (at s Position.receiving p h)
  Step-Delivers {s} (cancelled_sending e p) h =
      Running-Stopped tenant (Position.sending e) s.received s.store.all (queue_of s)
        (owed ch s.publishing) (at s (Position.sending e) p h)
  Step-Delivers {s} (unsubscribed p free) h = at s Position.cancelled p h
  Step-Delivers {s} (began e es expected free same) h = h
  Step-Delivers {s} (logged key e es w idle) h =
      Kept-log tenant s.position s.received s.store.all (queue_of s) (number s.store e)
        (owed ch s.publishing)
        (owed ch (some (number s.store e, map (λ sub. sub.0) s.store.subscribers)))
        (ap (owed ch) idle)
        (λ q known.
          owed-sent ch (number s.store e) (map (λ sub. sub.0) s.store.subscribers)
            (subscribed ch s.store.subscribers q known))
        h
  Step-Delivers {s} (published e c cs q sending listed known room) h =
      published-Delivers s e c cs q sending listed known h
  Step-Delivers {s} (published_all e sending) h =
      subst (Kept tenant s.position s.received s.store.all (queue_of s)) (ap (owed ch) sending) h
  Step-Delivers {s} (ended key w idle) h = h
  Step-Delivers {s} (other_received c e q n known) h =
      subst (λ o. Kept tenant s.position s.received s.store.all o (owed ch s.publishing))
        (sym (lookup-insert_other c ch q s.store.subscribers (λ z. n (sym z)))) h
  Step-Delivers {s} (others m same free) h =
      subst (λ o. Kept tenant s.position s.received s.store.all o (owed ch s.publishing)) (sym same)
        h

  Reach-Delivers : {s t : System} → Reach tenant ch s t → Delivers s → Delivers t
  Reach-Delivers (Reach.here) h = h
  Reach-Delivers (Reach.next r step) h = Step-Delivers step (Reach-Delivers r h)

-- The stream loses nothing, repeats nothing and keeps the order: in every state that a StreamAll on
-- a store reaches, interleaved in any way with the appends and sends of commits and with other
-- subscribers, what its reader has received is a beginning of the visible part of the log as it is
-- then, the backlog included. Until it is cancelled, the rest of that part is exactly the backlog or
-- the event in the goroutine's hand, then what of its channel is visible, then the event that a
-- Commit has appended and has still to send to this channel, if there is one and it is visible.
pub stream_all-Reach-Delivers :
    (tenant : Option ℕ) (ch : ℕ) (s : Store) {t : System}
    → Reach tenant ch (stream_all tenant ch s) t
    → Delivers tenant ch t
stream_all-Reach-Delivers tenant ch s r =
    Reach-Delivers tenant ch r (stream_all-Delivers tenant ch s)
