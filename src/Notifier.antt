-- ===== src/Notifier.antt =====
-- es/notifier.go: waiting for the read side to reach a version. Channels are numbered as they are
-- made; the closed ones are listed.
pub mod Wakeups
pub mod Channels
pub mod History
use go_es_light.Base.{
  ℕ, ◌+◌, Bool, true, false, not, ◌||◌, List, [], ◌∷◌, ◌++◌, map, filter, ltb, leb, ◌==◌, nat_eq,
  if◌then◌else◌, Map, lookup_or, insert, delete, Result, ok,
}
use go_es_light.Event.{DomainEvent}
use go_es_light.Dispatcher.{EventListener, ListenerKind}

pub record VersionWaiter : Type 0 where
  pub min_version : ℕ
  pub ch : ℕ

pub record EventNotifier : Type 0 where
  pub last_projected : Map ℕ ℕ
  pub waiters : Map ℕ (List VersionWaiter)
  pub next_channel : ℕ
  pub closed : List ℕ

-- NewEventNotifier
unfoldable pub new : EventNotifier
new = record { last_projected = []; waiters = []; next_channel = 0; closed = [] }

abbrev pub last_of : ℕ → EventNotifier → ℕ
last_of agg n = lookup_or 0 agg n.last_projected

abbrev pub waiting_for : ℕ → EventNotifier → List VersionWaiter
waiting_for agg n = lookup_or [] agg n.waiters

-- EventNotifier.Subscribe: the channel, and the notifier.
unfoldable pub subscribe : ℕ → ℕ → EventNotifier → ℕ × EventNotifier
subscribe agg min n =
    let ch = n.next_channel in
    let made = record n { next_channel = ch + 1 } in
    if leb min (last_of agg n) then (ch, record made { closed = ch ∷ n.closed }) else (
      ch,
      record made {
        waiters =
            insert agg (waiting_for agg n ++ record { min_version = min; ch = ch } ∷ []) n.waiters;
      },
    )

abbrev pub raise_last : ℕ → ℕ → Map ℕ ℕ → Map ℕ ℕ
raise_last agg v m = if ltb (lookup_or 0 agg m) v then insert agg v m else m

-- The waiters that an event of version v wakes, and those that it leaves.
abbrev pub woken : ℕ → List VersionWaiter → List VersionWaiter
woken v = filter (λ w. leb w.min_version v)

abbrev pub remaining : ℕ → List VersionWaiter → List VersionWaiter
remaining v = filter (λ w. not (leb w.min_version v))

abbrev pub channels : List VersionWaiter → List ℕ
channels = map (λ w. w.ch)

-- if len(remaining) == 0 { delete(...) } else { n.waiters[...] = remaining }
abbrev pub store_waiters :
    ℕ → List VersionWaiter → Map ℕ (List VersionWaiter) → Map ℕ (List VersionWaiter)
store_waiters agg [] m = delete agg m
store_waiters agg (w ∷ ws) m = insert agg (w ∷ ws) m

abbrev pub wake : ℕ → ℕ → List VersionWaiter → EventNotifier → EventNotifier
wake agg v [] n = n
wake agg v (w ∷ ws) n = record n {
  waiters = store_waiters agg (remaining v (w ∷ ws)) n.waiters;
  closed = channels (woken v (w ∷ ws)) ++ n.closed;
}

abbrev pub notify_version : ℕ → ℕ → EventNotifier → EventNotifier
notify_version agg v n =
    wake agg v (waiting_for agg n) (record n { last_projected = raise_last agg v n.last_projected })

-- EventNotifier.Notify
unfoldable pub notify : DomainEvent → EventNotifier → EventNotifier
notify e n = notify_version e.aggregate_id e.aggregate_version n

-- NotifierListener: a projector whose world is the notifier.
unfoldable pub notifier_listener : EventListener EventNotifier
unfolding notify
notifier_listener = record { kind = ListenerKind.projector; handle = λ e n. (ok tt, notify e n) }
