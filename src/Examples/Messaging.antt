-- ===== src/Examples/Messaging.antt =====
-- es/dispatcher.go and es/notifier.go at concrete inputs.
use go_es_light.Base.{
  ℕ, ◌+◌, ◌≡◌, ◌↔◌, ◌⊎◌, refl, [], ◌∷◌, ◌++◌, Bool, true, none, filter, Bytes, ok, err, Error,
}
use go_es_light.Int.{pos}
use go_es_light.Event.{DomainEvent}
use go_es_light.Dispatcher.{
  handle_side_effects, new, pattern_matches, cut_star, has_prefix, ListenerKind, EventListener,
  Dispatcher, dispatch,
}
use go_es_light.Dispatcher.Patterns.{pattern_matches_iff}
use go_es_light.Dispatcher.Order.{
  is_projector, run_chain, reactors, matching, subscribe_all, dispatch-eq-chain,
}
use go_es_light.Notifier
use go_es_light.Notifier.{EventNotifier, last_of, notify}
use go_es_light.Notifier.Wakeups.{is_closed}
use go_es_light.Notifier.History.{Reach, is_projected, channel_closed_iff}

-- "Order*" and "OrderPlaced", in shortened names.
abbrev order_star : Bytes
order_star = 79 ∷ 42 ∷ []

abbrev order_placed : Bytes
order_placed = 79 ∷ 80 ∷ []

pattern_matches_iff_example : (pattern_matches order_star order_placed ≡ true) ↔ (
    (order_star ≡ order_placed)
    ⊎ ((start : Bytes) × (rest : Bytes) × (order_star ≡ start ++ 42 ∷ [])
        × (order_placed ≡ start ++ rest)))
pattern_matches_iff_example = pattern_matches_iff order_star order_placed

matched : pattern_matches order_star order_placed ≡ true
unfolding pattern_matches cut_star has_prefix
matched = refl

abbrev placed : ℕ → DomainEvent
placed version = record {
  global_id = version;
  id = 1;
  tenant_id = 0;
  aggregate_id = 5;
  aggregate_version = version;
  version = pos 1;
  name = order_placed;
  payload = [];
  metadata = [];
  actor_id = none;
  actor_type = none;
  pii_id = none;
  pii_fields = [];
  pii_unrecoverable = Bool.false;
  occurred_at = 0;
}

-- A projector that counts, one that fails, and a reactor.
abbrev counting : EventListener ℕ
counting = record { kind = ListenerKind.projector; handle = λ e n. (ok tt, n + 1) }

abbrev failing : EventListener ℕ
failing = record {
  kind = ListenerKind.projector;
  handle = λ e n. (err (Error.text "read model down"), n);
}

abbrev mailing : EventListener ℕ
mailing = record { kind = ListenerKind.reactor; handle = λ e n. (ok tt, n) }

abbrev wired : Dispatcher ℕ
wired = record {
  registrations =
      record { pattern' = order_star; listener = counting }
      ∷ record { pattern' = order_placed; listener = failing }
      ∷ record { pattern' = order_star; listener = mailing }
      ∷ record { pattern' = order_star; listener = counting }
      ∷ [];
  with_side_effects = true;
}

dispatch-eq-chain_example :
    dispatch (subscribe_all wired.registrations (handle_side_effects true new)) (placed 1) 0
    ≡ record {
      error =
          (run_chain
            (filter is_projector (matching wired.registrations (placed 1)))
            (placed 1)
            0).0;
      world =
          (run_chain
            (filter is_projector (matching wired.registrations (placed 1)))
            (placed 1)
            0).1;
      started = reactors true (matching wired.registrations (placed 1));
    }
dispatch-eq-chain_example = dispatch-eq-chain wired.registrations true (placed 1) 0

-- A reader waits for version 2 of aggregate 5; versions 1 and 2 are then projected.
abbrev waiting : EventNotifier
waiting = (Notifier.subscribe 5 2 Notifier.new).1

abbrev woken_up : EventNotifier
woken_up = notify (placed 2) (notify (placed 1) waiting)

two_notified : Reach waiting (placed 1 ∷ placed 2 ∷ []) woken_up
two_notified = Reach.notified (placed 2) (Reach.notified (placed 1) Reach.here)

channel_closed_iff_example :
    is_closed (Notifier.subscribe 5 2 Notifier.new).0 woken_up
    ≡ is_projected 5 2 (placed 1 ∷ placed 2 ∷ [])
channel_closed_iff_example = channel_closed_iff 5 2 Reach.here two_notified
