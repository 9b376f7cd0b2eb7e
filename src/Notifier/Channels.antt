-- ===== src/Notifier/Channels.antt =====
-- es/notifier.go: the channels that Subscribe makes and Notify closes.
use go_es_light.Base.{
  ℕ, ◌+◌, ◌<◌, ◌≤◌, ◌≡◌, ◌≢◌, refl, ap, sym, ◌∙◌, Bool, true, false, List, [], ◌∷◌, ◌++◌, leb, ◌==◌,
  ◌||◌, ◌&&◌, not, nat_eq, if◌then◌else◌, lookup_or, lookup_or-insert, All, All-append, All-imp,
  All-filter_of, arith, contains, lookup,
}
use mathlib.Core.Path.{subst, ap₂}
use go_es_light.Notifier.{
  VersionWaiter, EventNotifier, new, last_of, waiting_for, subscribe, notify_version, woken,
  remaining, channels, raise_last,
}
use go_es_light.Notifier.Wakeups.{
  is_closed, waits, contains-append, Tracks, closed-wake, waiting-wake, next-wake,
}

-- No channel is in use that was not made.
pub record IsFresh (n : EventNotifier) : Type 0 where
  pub pending : (k : ℕ) → All (λ w. w.ch < n.next_channel) (waiting_for k n)
  pub done : (c : ℕ) → n.next_channel ≤ c → is_closed c n ≡ false

pub new-IsFresh : IsFresh new
unfolding new lookup_or lookup
new-IsFresh = record { pending = λ k. tt; done = λ c h. refl }

All-if :
    (P : VersionWaiter → Type 0) (b : Bool) (xs ys : List VersionWaiter)
    → All P xs
    → All P ys
    → All P (if b then xs else ys)
All-if P true xs ys hx hy = hx
All-if P false xs ys hx hy = hy

waits-last :
    (c min : ℕ) (ws : List VersionWaiter)
    → waits c (ws ++ record { min_version = min; ch = c } ∷ []) ≡ true
waits-last c min [] = ground arith
waits-last c min (w ∷ ws) = ground (arith, waits-last c min ws)

waits-append :
    (c : ℕ) (ws : List VersionWaiter) (x : VersionWaiter)
    → waits c ws ≡ true
    → waits c (ws ++ x ∷ []) ≡ true
waits-append c [] x h = cc
waits-append c (w ∷ ws) x h = ground (arith, waits-append c ws x)

waits-if :
    (c : ℕ) (b : Bool) (ws : List VersionWaiter) (x : VersionWaiter)
    → waits c ws ≡ true
    → waits c (if b then ws ++ x ∷ [] else ws) ≡ true
waits-if c true ws x h = waits-append c ws x h
waits-if c false ws x h = h

contains_made :
    (c k v : ℕ) (ws : List VersionWaiter)
    → All (λ w. w.ch < k) ws
    → k ≤ c
    → waits c (woken v ws) ≡ false
contains_made c k v [] h le = refl
contains_made c k v (w ∷ ws) h le = ground (arith, contains_made c k v ws h.1 le)

module _ (agg min : ℕ) (n : EventNotifier) where
  abbrev pub after : EventNotifier
  after = (subscribe agg min n).1

  abbrev waiter : VersionWaiter
  waiter = record { min_version = min; ch = n.next_channel }

  waiting-subscribe :
      (k : ℕ)
      → waiting_for k after ≡ (
          if (agg == k) && not (leb min (last_of agg n))
          then waiting_for k n ++ waiter ∷ []
          else waiting_for k n)
  unfolding subscribe
  waiting-subscribe k =
      ground (arith, lookup_or-insert [] agg k (waiting_for agg n ++ waiter ∷ []) n.waiters)

  pub channel-subscribe : (subscribe agg min n).0 ≡ n.next_channel
  unfolding subscribe
  channel-subscribe = ground arith

  pub last-subscribe : (k : ℕ) → last_of k after ≡ last_of k n
  unfolding subscribe
  last-subscribe k = ground arith

  next-subscribe : after.next_channel ≡ n.next_channel + 1
  unfolding subscribe
  next-subscribe = ground arith

  closed-subscribe :
      (c : ℕ)
      → is_closed c after ≡ (leb min (last_of agg n) && (n.next_channel == c)) || is_closed c n
  unfolding subscribe
  closed-subscribe c = ground arith

  -- A predicate of the waiters holds after Subscribe if it holds before, and of the new one.
  All-subscribe :
      (P : VersionWaiter → Type 0) (k : ℕ)
      → All P (waiting_for k n)
      → P waiter
      → All P (waiting_for k after)
  All-subscribe P k h w = subst (All P) (sym (waiting-subscribe k)) (
      All-if P _ (waiting_for k n ++ waiter ∷ []) (waiting_for k n)
        (All-append P (waiting_for k n) (waiter ∷ []) h (w, tt)) h)

  pub subscribe-IsFresh : IsFresh n → IsFresh after
  subscribe-IsFresh f = record {
    pending = λ k.
        All-subscribe (λ w. w.ch < after.next_channel) k
          (All-imp (λ w. w.ch < n.next_channel) (λ w. w.ch < after.next_channel) (waiting_for k n)
            (λ w h. omega (arith, next-subscribe)) (f.pending k))
          (omega (arith, next-subscribe));
    done = λ c h. ground (arith, closed-subscribe c, next-subscribe, f.done c);
  }

  -- The other channels are not touched.
  pub subscribe-Tracks : (c agg' min' : ℕ) → Tracks c agg' min' n → Tracks c agg' min' after
  subscribe-Tracks c agg' min' t = record {
    made = omega (arith, next-subscribe, t.made);
    sole =
        All-subscribe (λ w. w.ch ≡ c → w.min_version ≡ min') agg' t.sole
          (λ e. absurd (omega (arith, t.made)));
    elsewhere = λ k h. All-subscribe (λ w. w.ch ≢ c) k (t.elsewhere k h) (omega (arith, t.made));
    status = rw (last-subscribe agg') (ground (arith, closed-subscribe c, t.status, t.made));
    waiting = λ h.
        subst (λ l. waits c l ≡ true) (sym (waiting-subscribe agg'))
          (waits-if c _ (waiting_for agg' n) waiter (t.waiting (rw (← last-subscribe agg') h)));
  }

  -- The channel that Subscribe returns.
  pub subscribed-Tracks : IsFresh n → Tracks n.next_channel agg min after
  subscribed-Tracks f = record {
    made = omega (arith, next-subscribe);
    sole =
        All-subscribe (λ w. w.ch ≡ n.next_channel → w.min_version ≡ min) agg
          (All-imp (λ w. w.ch < n.next_channel) (λ w. w.ch ≡ n.next_channel → w.min_version ≡ min)
            (waiting_for agg n) (λ w h e. absurd (omega arith)) (f.pending agg))
          (λ e. refl);
    elsewhere = λ k h.
        let same : waiting_for k after ≡ waiting_for k n = ground (arith, waiting-subscribe k) in
        rw same (
          All-imp (λ w. w.ch < n.next_channel) (λ w. w.ch ≢ n.next_channel) (waiting_for k n)
            (λ w p. omega arith) (f.pending k));
    status =
        rw (last-subscribe agg)
          (ground (arith, closed-subscribe n.next_channel, f.done n.next_channel));
    waiting = λ h.
        let grown : waiting_for agg after ≡ waiting_for agg n ++ waiter ∷ [] =
          ground (arith, waiting-subscribe agg, last-subscribe agg) in
        rw grown (waits-last n.next_channel min (waiting_for agg n));
  }

module _ (k v : ℕ) (n : EventNotifier) where
  abbrev pub raised : EventNotifier
  raised = record n { last_projected = raise_last k v n.last_projected }

  pub notify_version-IsFresh : IsFresh n → IsFresh (notify_version k v n)
  notify_version-IsFresh f = record {
    pending = λ j. rw (next-wake k v raised (waiting_for k n)) (
        subst (All (λ w. w.ch < n.next_channel))
          (sym (waiting-wake k v raised j (waiting_for k n) refl))
          (All-if (λ w. w.ch < n.next_channel) (k == j) (remaining v (waiting_for k n))
            (waiting_for j n)
            (All-filter_of (λ w. w.ch < n.next_channel) (λ w. not (leb w.min_version v))
              (waiting_for k n) (f.pending k))
            (f.pending j)));
    done = λ c h.
        ap (contains c) (closed-wake k v raised (waiting_for k n))
        ∙ contains-append c (channels (woken v (waiting_for k n))) n.closed
        ∙ ap₂ ◌||◌
            (contains_made c n.next_channel v (waiting_for k n) (f.pending k)
              (subst (λ m. m ≤ c) (next-wake k v raised (waiting_for k n)) h))
            (f.done c (subst (λ m. m ≤ c) (next-wake k v raised (waiting_for k n)) h));
  }
