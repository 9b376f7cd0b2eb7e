-- ===== src/Notifier/History.antt =====
-- es/notifier.go: every history of calls, as steps of the notifier.
use go_es_light.Base.{
  ℕ, ◌≡◌, refl, ap, sym, ◌∙◌, Bool, List, [], ◌∷◌, ◌++◌, leb, ◌==◌, ◌||◌, ◌&&◌, nat_eq,
  if◌then◌else◌, lookup_or, arith, lookup, append-nil, append_assoc, ltb,
}
use go_es_light.Event.{DomainEvent}
use go_es_light.Notifier.{
  EventNotifier, new, last_of, waiting_for, subscribe, notify, notify_version,
}
use go_es_light.Notifier.Wakeups.{is_closed, Tracks, notify-Tracks, last-wake, last-raise}
use go_es_light.Notifier.Channels.{
  raised, IsFresh, channel-subscribe, last-subscribe, new-IsFresh, notify_version-IsFresh,
  subscribe-IsFresh, subscribe-Tracks, subscribed-Tracks,
}

last_notified :
    (k v : ℕ) (n : EventNotifier) (agg : ℕ)
    → last_of agg (notify_version k v n)
      ≡ (if (k == agg) && ltb (last_of agg n) v then v else last_of agg n)
last_notified k v n agg =
    rw (last-wake k v (raised k v n) (waiting_for k n)) (last-raise k v agg n.last_projected)

-- Calls of Subscribe and of Notify, with the events of the latter.
pub data Reach (n : EventNotifier) : List DomainEvent → EventNotifier → Type 0 where
  here : Reach n [] n
  subscribed :
      {es : List DomainEvent} {m : EventNotifier} (agg min : ℕ)
      → Reach n es m
      → Reach n es (subscribe agg min m).1
  notified :
      {es : List DomainEvent} {m : EventNotifier} (e : DomainEvent)
      → Reach n es m
      → Reach n (es ++ e ∷ []) (notify e m)

-- One of the events is of the aggregate and has the version or a later one; version 0 needs none.
abbrev pub is_projected : ℕ → ℕ → List DomainEvent → Bool
is_projected agg min [] = leb min 0
is_projected agg min (e ∷ es) =
    ((e.aggregate_id == agg) && leb min e.aggregate_version) || is_projected agg min es

is_projected-append :
    (agg min : ℕ) (es : List DomainEvent) (e : DomainEvent)
    → is_projected agg min (es ++ e ∷ [])
      ≡ ((e.aggregate_id == agg) && leb min e.aggregate_version) || is_projected agg min es
is_projected-append agg min [] e = refl
is_projected-append agg min (x ∷ es) e = ground (arith, is_projected-append agg min es e)

-- The notifier has recorded the events.
Records : EventNotifier → List DomainEvent → Type 0
Records n es = (agg min : ℕ) → leb min (last_of agg n) ≡ is_projected agg min es

notify-Records :
    (e : DomainEvent) (n : EventNotifier) (es : List DomainEvent)
    → Records n es
    → Records (notify e n) (es ++ e ∷ [])
unfolding notify Records
notify-Records e n es r agg min = ground (
  arith,
  last_notified e.aggregate_id e.aggregate_version n agg,
  r agg min,
  is_projected-append agg min es e,
)

Reach-Records :
    {n m : EventNotifier} {es : List DomainEvent} (prior : List DomainEvent)
    → Records n prior
    → Reach n es m
    → Records m (prior ++ es)
unfolding Records
Reach-Records prior r (Reach.here) agg min =
    r agg min ∙ ap (is_projected agg min) (sym (append-nil prior))
Reach-Records prior r (Reach.subscribed {m = m} agg' min' h) agg min =
    ap (leb min) (last-subscribe agg' min' m agg) ∙ Reach-Records prior r h agg min
Reach-Records prior r (Reach.notified {es = es} {m = m} e h) agg min =
    notify-Records e m (prior ++ es) (Reach-Records prior r h) agg min
    ∙ ap (is_projected agg min) (append_assoc prior es (e ∷ []))

Reach-IsFresh :
    {n n' : EventNotifier} {es : List DomainEvent} → IsFresh n → Reach n es n' → IsFresh n'
unfolding notify
Reach-IsFresh f (Reach.here) = f
Reach-IsFresh f (Reach.subscribed {m = m} agg min r) =
    subscribe-IsFresh agg min m (Reach-IsFresh f r)
Reach-IsFresh f (Reach.notified {m = m} e r) =
    notify_version-IsFresh e.aggregate_id e.aggregate_version m (Reach-IsFresh f r)

Reach-Tracks :
    {n n' : EventNotifier} {es : List DomainEvent} (c agg min : ℕ)
    → Tracks c agg min n
    → Reach n es n'
    → Tracks c agg min n'
Reach-Tracks c agg min t (Reach.here) = t
Reach-Tracks c agg min t (Reach.subscribed {m = m} agg' min' r) =
    subscribe-Tracks agg' min' m c agg min (Reach-Tracks c agg min t r)
Reach-Tracks c agg min t (Reach.notified {m = m} e r) =
    notify-Tracks c agg min e m (Reach-Tracks c agg min t r)

-- Read-your-writes: take any history before a Subscribe and any history after it. The channel that
-- Subscribe returned is closed if and only if Notify was called, before or after, with an event of
-- the aggregate that has the version asked for or a later one, or version 0 was asked for; so no
-- wake-up is lost, and none comes too early.
pub channel_closed_iff :
    {n n' : EventNotifier} {es es' : List DomainEvent} (agg min : ℕ)
    → Reach new es n
    → Reach (subscribe agg min n).1 es' n'
    → is_closed (subscribe agg min n).0 n' ≡ is_projected agg min (es ++ es')
unfolding new lookup_or lookup Records
channel_closed_iff {n} {n'} {es} {es'} agg min before afterwards =
    let t =
      Reach-Tracks n.next_channel agg min
        (subscribed-Tracks agg min n (Reach-IsFresh new-IsFresh before)) afterwards in
    let recorded = Reach-Records [] (λ k m. refl) before in
    rw (channel-subscribe agg min n) (
      t.status
      ∙ Reach-Records es (λ k m. ap (leb m) (last-subscribe agg min n k) ∙ recorded k m) afterwards
          agg min)
