-- ===== src/Dispatcher/Order.antt =====
-- Dispatch of es/dispatcher.go: projectors in order up to the first failure, reactors regardless.
use go_es_light.Base.{
  ◌≡◌, refl, Bool, true, false, not, Option, none, some, List, [], ◌∷◌, ◌++◌, filter, if◌then◌else◌,
  ok, err, Error, arith, inl, inr, Result-cases, append-nil, append_assoc, map, ap, sym, ◌∙◌,
  Bool-cases,
}
use go_es_light.Event.{DomainEvent}
use go_es_light.Dispatcher.{
  ListenerKind, EventListener, ListenerRegistration, Dispatcher, get_listeners_for_event,
  run_listeners, dispatch, pattern_matches, subscribe, handle_side_effects, new,
}

abbrev reactor_kind : ListenerKind → Bool
reactor_kind ListenerKind.reactor = true
reactor_kind ListenerKind.projector = false

module _ {W : Type 0} where
  abbrev pub is_reactor : EventListener W → Bool
  is_reactor h = reactor_kind h.kind

  abbrev pub is_projector : EventListener W → Bool
  is_projector h = not (reactor_kind h.kind)

  -- Projectors alone, one after the other, up to the first that fails: its error, and the world.
  unfoldable pub run_chain : List (EventListener W) → DomainEvent → W → Option Error × W
  run_chain [] e w = (none, w)
  run_chain (h ∷ hs) e w =
      let (r, w') = h.handle e w in elim r [ ok _ ↦ run_chain hs e w' | err x ↦ (some x, w') ]

  -- The reactors that start: all of them, or none while side effects are off.
  abbrev pub reactors : Bool → List (EventListener W) → List (EventListener W)
  reactors effects hs = if effects then filter is_reactor hs else []

  failed-listeners :
      (effects : Bool) (hs : List (EventListener W)) (e : DomainEvent) (x : Error) (w : W)
      (started : List (EventListener W))
      → run_listeners effects hs e (record { error = some x; world = w; started = started })
        ≡ record { error = some x; world = w; started = started ++ reactors effects hs }
  unfolding run_listeners
  failed-listeners true [] e x w started = ground (arith, append-nil started)
  failed-listeners false [] e x w started = ground (arith, append-nil started)
  failed-listeners true (h ∷ hs) e x w started = ground (
    arith,
    failed-listeners true hs e x w started,
    failed-listeners true hs e x w (started ++ h ∷ []),
    append_assoc started (h ∷ []) (filter is_reactor hs),
  )
  failed-listeners false (h ∷ hs) e x w started =
      ground (arith, failed-listeners false hs e x w started)

  run_listeners-eq-chain :
      (effects : Bool) (hs : List (EventListener W)) (e : DomainEvent) (w : W)
      (started : List (EventListener W))
      → run_listeners effects hs e (record { error = none; world = w; started = started })
        ≡ record {
          error = (run_chain (filter is_projector hs) e w).0;
          world = (run_chain (filter is_projector hs) e w).1;
          started = started ++ reactors effects hs;
        }
  unfolding run_listeners run_chain
  run_listeners-eq-chain true [] e w started = ground (arith, append-nil started)
  run_listeners-eq-chain false [] e w started = ground (arith, append-nil started)
  run_listeners-eq-chain true (h ∷ hs) e w started = elim (Result-cases (h.handle e w).0) [
    | inl good ↦ ground (
      arith,
      run_listeners-eq-chain true hs e w (started ++ h ∷ []),
      run_listeners-eq-chain true hs e (h.handle e w).1 started,
      append_assoc started (h ∷ []) (filter is_reactor hs),
    )
    | inr (x, bad) ↦ ground (
      arith,
      run_listeners-eq-chain true hs e w (started ++ h ∷ []),
      failed-listeners true hs e x (h.handle e w).1 started,
      append_assoc started (h ∷ []) (filter is_reactor hs),
    )
  ]
  run_listeners-eq-chain false (h ∷ hs) e w started = elim (Result-cases (h.handle e w).0) [
    | inl good ↦ ground (
      arith,
      run_listeners-eq-chain false hs e w started,
      run_listeners-eq-chain false hs e (h.handle e w).1 started,
    )
    | inr (x, bad) ↦ ground (
      arith,
      run_listeners-eq-chain false hs e w started,
      failed-listeners false hs e x (h.handle e w).1 started,
    )
  ]

  -- The listeners that an event is for, by the definition: the registrations whose pattern matches.
  abbrev pub matching : List (ListenerRegistration W) → DomainEvent → List (EventListener W)
  matching rs e = map (λ r. r.listener) (filter (λ r. pattern_matches r.pattern' e.name) rs)

  get_listeners-eq-matching :
      (rs : List (ListenerRegistration W)) (e : DomainEvent)
      → get_listeners_for_event rs e ≡ matching rs e
  unfolding get_listeners_for_event
  get_listeners-eq-matching [] e = refl
  get_listeners-eq-matching (r ∷ rs) e = elim (Bool-cases (pattern_matches r.pattern' e.name)) [
    | inl h ↦ rw h (ap (◌∷◌ r.listener) (get_listeners-eq-matching rs e))
    | inr h ↦ rw h (get_listeners-eq-matching rs e)
  ]

  -- A call of Subscribe for each registration, in this order.
  abbrev pub subscribe_all : List (ListenerRegistration W) → Dispatcher W → Dispatcher W
  subscribe_all [] d = d
  subscribe_all (r ∷ rs) d = subscribe_all rs (subscribe r.pattern' r.listener d)

  subscribe_all-registrations :
      (rs : List (ListenerRegistration W)) (d : Dispatcher W)
      → subscribe_all rs d ≡ record d { registrations = d.registrations ++ rs }
  unfolding subscribe
  subscribe_all-registrations [] d =
      ap (λ l. record d { registrations = l }) (sym (append-nil d.registrations))
  subscribe_all-registrations (r ∷ rs) d =
      subscribe_all-registrations rs (subscribe r.pattern' r.listener d)
      ∙ ap (λ l. record d { registrations = l }) (append_assoc d.registrations (r ∷ []) rs)

  dispatch-eq-chain_of :
      (d : Dispatcher W) (e : DomainEvent) (w : W)
      → let hs = matching d.registrations e in
        dispatch d e w ≡ record {
          error = (run_chain (filter is_projector hs) e w).0;
          world = (run_chain (filter is_projector hs) e w).1;
          started = reactors d.with_side_effects hs;
        }
  unfolding dispatch
  dispatch-eq-chain_of d e w =
      run_listeners-eq-chain d.with_side_effects (get_listeners_for_event d.registrations e) e w []
      ∙ ap
          (λ hs. record {
            error = (run_chain (filter is_projector hs) e w).0;
            world = (run_chain (filter is_projector hs) e w).1;
            started = reactors d.with_side_effects hs;
          })
          (get_listeners-eq-matching d.registrations e)

  -- A new dispatcher with the given listeners subscribed one after the other runs the projectors
  -- whose pattern matches the event's name, all of them and in the order of their subscription,
  -- each on what the one before it left, up to the first that fails, and returns its error. The
  -- reactors whose pattern matches all start, whether a projector failed or not, unless side effects
  -- are off.
  pub dispatch-eq-chain :
      (rs : List (ListenerRegistration W)) (effects : Bool) (e : DomainEvent) (w : W)
      → let hs = matching rs e in
        dispatch (subscribe_all rs (handle_side_effects effects new)) e w ≡ record {
          error = (run_chain (filter is_projector hs) e w).0;
          world = (run_chain (filter is_projector hs) e w).1;
          started = reactors effects hs;
        }
  unfolding new handle_side_effects
  dispatch-eq-chain rs effects e w =
      ap (λ d. dispatch d e w) (subscribe_all-registrations rs (handle_side_effects effects new))
      ∙ dispatch-eq-chain_of (record { registrations = rs; with_side_effects = effects }) e w
