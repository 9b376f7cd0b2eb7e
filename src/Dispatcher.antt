-- ===== src/Dispatcher.antt =====
-- es/dispatcher.go: patterns, the listener registry and Dispatch.
pub mod Patterns
pub mod Order
use go_es_light.Base.{
  ℕ, Bool, true, false, ◌&&◌, ◌||◌, Option, none, some, List, [], ◌∷◌, ◌++◌, ◌==◌, nat_eq, list_eq,
  filter, map, if◌then◌else◌, Bytes, Result, ok, err, Error,
}
use go_es_light.Event.{DomainEvent}

-- strings.CutSuffix(pattern, "*"): what stands before a final '*' (42), if there is one.
unfoldable pub cut_star : Bytes → Option Bytes
cut_star [] = none
cut_star (c ∷ []) = if c == 42 then some [] else none
cut_star (c ∷ d ∷ cs) = elim (cut_star (d ∷ cs)) [ none ↦ none | some p ↦ some (c ∷ p) ]

-- strings.HasPrefix(name, prefix)
unfoldable pub has_prefix : Bytes → Bytes → Bool
has_prefix name [] = true
has_prefix [] (p ∷ ps) = false
has_prefix (n ∷ ns) (p ∷ ps) = (n == p) && has_prefix ns ps

abbrev prefix_matches : Option Bytes → Bytes → Bool
prefix_matches none name = false
prefix_matches (some p) name = has_prefix name p

-- patternMatches
unfoldable pub pattern_matches : Bytes → Bytes → Bool
unfolding cut_star has_prefix
pattern_matches pattern' name =
    if pattern' == name then true else prefix_matches (cut_star pattern') name

pub data ListenerKind : Type 0 where
  projector reactor : ListenerKind

-- interface EventListener: a projector changes a world W (its read model), and may fail; what a
-- reactor does happens outside, in a goroutine of its own.
pub record EventListener (W : Type 0) : Type 0 where
  pub kind : ListenerKind
  pub handle : DomainEvent → W → Result (Unit {0}) × W

pub record ListenerRegistration (W : Type 0) : Type 0 where
  pub pattern' : Bytes
  pub listener : EventListener W

pub record Dispatcher (W : Type 0) : Type 0 where
  pub registrations : List (ListenerRegistration W)
  pub with_side_effects : Bool

-- Where Dispatch is: the first projector's error, the world, and the reactors that it started.
pub record Progress (W : Type 0) : Type 0 where
  pub error : Option Error
  pub world : W
  pub started : List (EventListener W)

abbrev keep_error : Result (Unit {0}) → Option Error
keep_error (ok _) = none
keep_error (err x) = some x

module _ {W : Type 0} where
  -- NewEventDispatcher, HandleSideEffects and Subscribe
  unfoldable pub new : Dispatcher W
  new = record { registrations = []; with_side_effects = true }

  unfoldable pub handle_side_effects : Bool → Dispatcher W → Dispatcher W
  handle_side_effects v d = record d { with_side_effects = v }

  unfoldable pub subscribe : Bytes → EventListener W → Dispatcher W → Dispatcher W
  subscribe p l d = record d {
    registrations = d.registrations ++ record { pattern' = p; listener = l } ∷ [];
  }

  -- InMemoryListenerProvider.GetListenersForEvent
  unfoldable pub get_listeners_for_event :
      List (ListenerRegistration W) → DomainEvent → List (EventListener W)
  get_listeners_for_event [] e = []
  get_listeners_for_event (r ∷ rs) e =
      if pattern_matches r.pattern' e.name
      then r.listener ∷ get_listeners_for_event rs e
      else get_listeners_for_event rs e

  abbrev run_projector : EventListener W → DomainEvent → Option Error → Progress W → Progress W
  run_projector h e (some x) p = p
  run_projector h e none p =
      let (r, w) = h.handle e p.world in record p { error = keep_error r; world = w }

  abbrev run_reactor : Bool → EventListener W → Progress W → Progress W
  run_reactor true h p = record p { started = p.started ++ h ∷ [] }
  run_reactor false h p = p

  abbrev run_kind : ListenerKind → Bool → EventListener W → DomainEvent → Progress W → Progress W
  run_kind ListenerKind.reactor effects h e p = run_reactor effects h p
  run_kind ListenerKind.projector effects h e p = run_projector h e p.error p

  -- The loop of Dispatch.
  unfoldable pub run_listeners :
      Bool → List (EventListener W) → DomainEvent → Progress W → Progress W
  run_listeners effects [] e p = p
  run_listeners effects (h ∷ hs) e p = run_listeners effects hs e (run_kind h.kind effects h e p)

  -- Dispatcher.Dispatch
  unfoldable pub dispatch : Dispatcher W → DomainEvent → W → Progress W
  unfolding run_listeners get_listeners_for_event
  dispatch d e w =
      run_listeners d.with_side_effects (get_listeners_for_event d.registrations e) e
        (record { error = none; world = w; started = [] })
