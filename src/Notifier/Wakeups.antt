-- ===== src/Notifier/Wakeups.antt =====
-- es/notifier.go: a channel is closed exactly when its version has been projected, whatever the
-- order of Subscribe and Notify.
use go_es_light.Base.{
  ℕ, ◌<◌, ◌≤◌, ◌≡◌, ◌≢◌, refl, sym, Bool, true, false, not, ◌||◌, ◌&&◌, List, [], ◌∷◌, ◌++◌, ltb,
  leb, ◌==◌, nat_eq, if◌then◌else◌, Map, lookup_or, lookup_or-insert, lookup_or-delete, All, arith,
  Bool-cases, contains, eq_of_beq, All-filter_of, inl, inr,
}
use mathlib.Core.Path.{subst}
use go_es_light.Event.{DomainEvent}
use go_es_light.Notifier.{
  VersionWaiter, EventNotifier, last_of, waiting_for, notify, notify_version, raise_last, woken,
  remaining, channels, store_waiters, wake,
}

abbrev pub is_closed : ℕ → EventNotifier → Bool
is_closed c n = contains c n.closed

abbrev pub waits : ℕ → List VersionWaiter → Bool
waits c ws = contains c (channels ws)

-- Every waiter on the channel waits for the version.
abbrev pub Sole : ℕ → ℕ → List VersionWaiter → Type 0
Sole c min = All (λ w. w.ch ≡ c → w.min_version ≡ min)

module _ (c min v : ℕ) where
  wakes_not : (ws : List VersionWaiter) → Sole c min ws → v < min → waits c (woken v ws) ≡ false
  wakes_not [] h lt = refl
  wakes_not (w ∷ ws) h lt = ground (arith, h.0, wakes_not ws h.1 lt)

  wakes :
      (ws : List VersionWaiter)
      → Sole c min ws
      → min ≤ v
      → waits c ws ≡ true
      → waits c (woken v ws) ≡ true
  wakes [] h le w = cc
  wakes (w ∷ ws) h le e = ground (arith, h.0, wakes ws h.1 le)

  stays :
      (ws : List VersionWaiter)
      → Sole c min ws
      → v < min
      → waits c ws ≡ true
      → waits c (remaining v ws) ≡ true
  stays [] h lt w = cc
  stays (w ∷ ws) h lt e = ground (arith, h.0, stays ws h.1 lt)

pub contains-append :
    (c : ℕ) (xs ys : List ℕ) → contains c (xs ++ ys) ≡ contains c xs || contains c ys
contains-append c [] ys = refl
contains-append c (x ∷ xs) ys = ground (arith, contains-append c xs ys)

absent :
    (c : ℕ) (v : ℕ) (ws : List VersionWaiter)
    → All (λ w. w.ch ≢ c) ws
    → waits c (woken v ws) ≡ false
absent c v [] h = refl
absent c v (w ∷ ws) h = ground (arith, absent c v ws h.1)

store_waiters_lem :
    (agg k : ℕ) (ws : List VersionWaiter) (m : Map ℕ (List VersionWaiter))
    → lookup_or [] k (store_waiters agg ws m) ≡ (if agg == k then ws else lookup_or [] k m)
store_waiters_lem agg k [] m = lookup_or-delete [] agg k m
store_waiters_lem agg k (w ∷ ws) m = lookup_or-insert [] agg k (w ∷ ws) m

module _ (agg v : ℕ) (n : EventNotifier) where
  pub waiting-wake :
      (k : ℕ) (ws : List VersionWaiter)
      → waiting_for agg n ≡ ws
      → waiting_for k (wake agg v ws n) ≡ (if agg == k then remaining v ws else waiting_for k n)
  waiting-wake k [] h = ground arith
  waiting-wake k (w ∷ ws) h = store_waiters_lem agg k (remaining v (w ∷ ws)) n.waiters

  pub closed-wake :
      (ws : List VersionWaiter) → (wake agg v ws n).closed ≡ channels (woken v ws) ++ n.closed
  closed-wake [] = refl
  closed-wake (w ∷ ws) = refl

  pub last-wake : (ws : List VersionWaiter) → (wake agg v ws n).last_projected ≡ n.last_projected
  last-wake [] = refl
  last-wake (w ∷ ws) = refl

  pub next-wake : (ws : List VersionWaiter) → (wake agg v ws n).next_channel ≡ n.next_channel
  next-wake [] = refl
  next-wake (w ∷ ws) = refl

pub last-raise :
    (agg v k : ℕ) (m : Map ℕ ℕ)
    → lookup_or 0 k (raise_last agg v m)
      ≡ (if (agg == k) && ltb (lookup_or 0 k m) v then v else lookup_or 0 k m)
last-raise agg v k m = ground (arith, lookup_or-insert 0 agg k v m)

-- The state of a channel that was made for (agg, min).
pub record Tracks (c agg min : ℕ) (n : EventNotifier) : Type 0 where
  pub made : c < n.next_channel
  pub sole : Sole c min (waiting_for agg n)
  pub elsewhere : (k : ℕ) → k ≢ agg → All (λ w. w.ch ≢ c) (waiting_for k n)
  pub status : is_closed c n ≡ leb min (last_of agg n)
  pub waiting : last_of agg n < min → waits c (waiting_for agg n) ≡ true

module _ (c agg min k v : ℕ) (n : EventNotifier) (t : Tracks c agg min n) where
  abbrev ws : List VersionWaiter
  ws = waiting_for k n

  abbrev raised : EventNotifier
  raised = record n { last_projected = raise_last k v n.last_projected }

  waiting_after :
      (j : ℕ)
      → waiting_for j (notify_version k v n) ≡ (if k == j then remaining v ws else waiting_for j n)
  waiting_after j = waiting-wake k v raised j ws refl

  last_after :
      last_of agg (notify_version k v n)
      ≡ (if (k == agg) && ltb (last_of agg n) v then v else last_of agg n)
  last_after = rw (last-wake k v raised ws) (last-raise k v agg n.last_projected)

  closed_after : is_closed c (notify_version k v n) ≡ waits c (woken v ws) || is_closed c n
  closed_after = rw (closed-wake k v raised ws) (contains-append c (channels (woken v ws)) n.closed)

  next_after : (notify_version k v n).next_channel ≡ n.next_channel
  next_after = next-wake k v raised ws

-- An event of the channel's own aggregate.
module _ (c agg min v : ℕ) (n : EventNotifier) (t : Tracks c agg min n) where
  abbrev own : List VersionWaiter
  own = waiting_for agg n

  own_after : waiting_for agg (notify_version agg v n) ≡ remaining v own
  own_after = ground (arith, waiting_after c agg min agg v n t agg)

  other_after : (j : ℕ) → j ≢ agg → waiting_for j (notify_version agg v n) ≡ waiting_for j n
  other_after j h = ground (arith, waiting_after c agg min agg v n t j)

  own_status : is_closed c (notify_version agg v n) ≡ leb min (last_of agg (notify_version agg v n))
  own_status = ground (
    arith,
    t.status,
    t.waiting,
    closed_after c agg min agg v n t,
    last_after c agg min agg v n t,
    wakes_not c min v own t.sole,
    wakes c min v own t.sole,
  )

  own_waiting :
      last_of agg (notify_version agg v n) < min
      → waits c (waiting_for agg (notify_version agg v n)) ≡ true
  own_waiting h = rw own_after (
      stays c min v own t.sole (ground (arith, h, last_after c agg min agg v n t))
        (t.waiting (ground (arith, h, last_after c agg min agg v n t))))

  notify_own-Tracks : Tracks c agg min (notify_version agg v n)
  notify_own-Tracks = record {
    made = rw (next_after c agg min agg v n t) t.made;
    sole = rw own_after (
        All-filter_of (λ w. w.ch ≡ c → w.min_version ≡ min) (λ w. not (leb w.min_version v)) own
          t.sole);
    elsewhere = λ j h. rw (other_after j h) (t.elsewhere j h);
    status = own_status;
    waiting = own_waiting;
  }

-- An event of another aggregate.
module _ (c agg min k v : ℕ) (n : EventNotifier) (t : Tracks c agg min n) (other : k ≢ agg) where
  kept : (j : ℕ) → j ≢ k → waiting_for j (notify_version k v n) ≡ waiting_for j n
  kept j h = ground (arith, waiting_after c agg min k v n t j)

  kept_last : last_of agg (notify_version k v n) ≡ last_of agg n
  kept_last = ground (arith, last_after c agg min k v n t)

  kept_closed : is_closed c (notify_version k v n) ≡ is_closed c n
  kept_closed =
      ground
        (arith, closed_after c agg min k v n t, absent c v (waiting_for k n) (t.elsewhere k other))

  kept_elsewhere : (j : ℕ) → j ≢ agg → All (λ w. w.ch ≢ c) (waiting_for j (notify_version k v n))
  kept_elsewhere j h = elim (Bool-cases (k == j)) [
    | inl same ↦ rw (ground_at j same) (
        All-filter_of (λ w. w.ch ≢ c) (λ w. not (leb w.min_version v)) (waiting_for k n)
          (t.elsewhere k other))
    | inr diff ↦ rw (kept j (ground arith)) (t.elsewhere j h)
  ]
    where
      ground_at :
          (j : ℕ)
          → (k == j) ≡ true
          → waiting_for j (notify_version k v n) ≡ remaining v (waiting_for k n)
      ground_at j same = ground (arith, waiting_after c agg min k v n t j)

  notify_other-Tracks : Tracks c agg min (notify_version k v n)
  notify_other-Tracks = record {
    made = rw (next_after c agg min k v n t) t.made;
    sole = rw (kept agg (λ e. other (sym e))) t.sole;
    elsewhere = kept_elsewhere;
    status = rw (kept_closed, kept_last) t.status;
    waiting = rw (kept_last, kept agg (λ e. other (sym e))) t.waiting;
  }

pub notify-Tracks :
    (c agg min : ℕ) (e : DomainEvent) (n : EventNotifier)
    → Tracks c agg min n
    → Tracks c agg min (notify e n)
unfolding notify
notify-Tracks c agg min e n t = elim (Bool-cases (e.aggregate_id == agg)) [
  | inl here ↦
      subst (λ k. Tracks c agg min (notify_version k e.aggregate_version n))
        (sym (eq_of_beq e.aggregate_id agg here))
        (notify_own-Tracks c agg min e.aggregate_version n t)
  | inr there ↦ notify_other-Tracks c agg min e.aggregate_id e.aggregate_version n t (ground arith)
]
