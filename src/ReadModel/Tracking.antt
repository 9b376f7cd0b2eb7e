-- ===== src/ReadModel/Tracking.antt =====
-- The read model of examples/user follows the aggregate: what it shows of a user is what replaying the
-- user's events gives.
use go_es_light.Base.{
  ℕ, ◌≡◌, refl, ap, sym, ◌∙◌, Bool, true, false, none, some, List, [], ◌∷◌, nat_eq, list_eq,
  if◌then◌else◌, All, lookup, insert, lookup-insert_self, get_or, Bytes, Result, ok, err, Error,
}
use mathlib.Core.Path.{subst}
use go_es_light.Event.{DomainEvent}
use go_es_light.Json.{Codec}
use go_es_light.Aggregate.{
  Aggregate, Registry, decode_event, replay_applied, replay_decoded, replay_event,
  load_from_history,
}
use go_es_light.User.{User, UserEvent, zero_user, event_name, apply}
use go_es_light.User.Service.{UserView, to_view}
use go_es_light.ReadModel.{Views, upsert, get, zero_view, updated, handle, project}

-- The fresh instance into which Handle unmarshals an event of the type of this one
abbrev fresh_of : UserEvent → UserEvent
fresh_of (UserEvent.user_registered email name) = UserEvent.user_registered [] []
fresh_of (UserEvent.user_email_changed email) = UserEvent.user_email_changed []
fresh_of (UserEvent.user_name_changed name) = UserEvent.user_name_changed []
fresh_of UserEvent.user_erasure_requested = UserEvent.user_erasure_requested

-- The state of an Apply that succeeded.
unless-eq :
    (b : Bool) (x : Error) (u w u' : User)
    → ◌≡◌ {A = Result (Unit {0}) × User} (if b then (err x, u) else (ok tt, w)) (ok tt, u')
    → w ≡ u'
unless-eq true x u w u' h = absurd (let bad : err x ≡ ok tt = ap (λ p. p.0) h in cc)
unless-eq false x u w u' h = ap (λ p. p.1) h

when-eq :
    (b : Bool) (x : Error) (u w u' : User)
    → ◌≡◌ {A = Result (Unit {0}) × User} (if b then (ok tt, w) else (err x, u)) (ok tt, u')
    → w ≡ u'
when-eq true x u w u' h = ap (λ p. p.1) h
when-eq false x u w u' h = absurd (let bad : err x ≡ ok tt = ap (λ p. p.0) h in cc)

module _ (c : Codec UserEvent) (registry : Registry UserEvent) where
  -- The stored event e of the aggregate `id` is `event`: both the registry and the projector read it
  -- as that, and its subject's key is still there.
  pub record IsStored (id : ℕ) (e : DomainEvent) : Type 0 where
    pub event : UserEvent
    pub decoded : decode_event c apply registry e ≡ ok event
    pub named : e.name ≡ event_name event
    pub read : c.unmarshal e.payload (fresh_of event) ≡ ok event
    pub opened : e.pii_unrecoverable ≡ false
    pub of_user : e.aggregate_id ≡ id

  -- The view has the fields of the user.
  abbrev pub Shows : UserView → User → Type 0
  Shows v u = (v.email ≡ u.email) × (v.name ≡ u.name)

  updated-Shows :
      (event : UserEvent) (payload : Bytes) (v : UserView) (u u' : User)
      → c.unmarshal payload (fresh_of event) ≡ ok event
      → apply event u ≡ (ok tt, u')
      → Shows v u
      → (w : UserView) × (updated c (event_name event) payload false v ≡ ok w)
        × Shows w u'
        × (w.id ≡ v.id)
        × (w.version ≡ v.version)
  unfolding apply
  updated-Shows (UserEvent.user_registered email name) payload v u u' read done shows =
      let same =
        unless-eq u.registered _ u (record { email = email; name = name; registered = true }) u'
          done in
      (
        record v { email = email; name = name },
        rw read refl,
        (ap (λ s. s.email) same, ap (λ s. s.name) same),
        refl,
        refl,
      )
  updated-Shows (UserEvent.user_email_changed email) payload v u u' read done shows =
      let same = when-eq u.registered _ u (record u { email = email }) u' done in
      (
        record v { email = email },
        rw read refl,
        (ap (λ s. s.email) same, shows.1 ∙ ap (λ s. s.name) same),
        refl,
        refl,
      )
  updated-Shows (UserEvent.user_name_changed name) payload v u u' read done shows =
      let same = when-eq u.registered _ u (record u { name = name }) u' done in
      (
        record v { name = name },
        rw read refl,
        (shows.0 ∙ ap (λ s. s.email) same, ap (λ s. s.name) same),
        refl,
        refl,
      )
  updated-Shows UserEvent.user_erasure_requested payload v u u' read done shows =
      let same = when-eq u.registered _ u (u) u' done in
      (v, refl, (shows.0 ∙ ap (λ s. s.email) same, shows.1 ∙ ap (λ s. s.name) same), refl, refl)

  -- What a round of the replay that succeeds has done.
  replay_applied-eq :
      (e : DomainEvent) (a a' : Aggregate User) (p : Result (Unit {0}) × User)
      → replay_applied c apply e a p ≡ (ok tt, a')
      → (p ≡ (ok tt, a'.state)) × (a'.base.version ≡ e.aggregate_version) × (a'.base.id ≡ a.base.id)
  replay_applied-eq e a a' (err x, s) h =
      absurd (let bad : err (Error.wrap "es: replay" x) ≡ ok tt = ap (λ p. p.0) h in cc)
  replay_applied-eq e a a' (ok _, s) h =
      let same = ap (λ p. p.1) h in
      (
        ap (λ b. (ok tt, b.state)) same,
        ap (λ b. b.base.version) (sym same),
        ap (λ b. b.base.id) (sym same),
      )

  view-eq :
      (v : UserView) (u : Aggregate User)
      → Shows v u.state
      → v.id ≡ u.base.id
      → v.version ≡ u.base.version
      → v ≡ to_view u
  view-eq v u (email, name) id version =
      ap (λ x. record v { id = x }) id
      ∙ ap (λ x. record v { id = u.base.id; email = x }) email
      ∙ ap (λ x. record v { id = u.base.id; email = u.state.email; name = x }) name
      ∙ ap (λ x. record (to_view u) { version = x }) version

  -- The views show of the user `id` what the aggregate is.
  abbrev pub IsCurrent : ℕ → Views → Aggregate User → Type 0
  IsCurrent id views a = (get id views ≡ some (to_view a)) × (a.base.id ≡ id)

  handled_as :
      (id : ℕ) (e : DomainEvent) (views : Views) (w : UserView) (stored : IsStored id e)
      → updated c
          (event_name stored.event)
          e.payload
          false
          (record (get_or zero_view (lookup id views)) { id = id; version = e.aggregate_version })
        ≡ ok w
      → w.id ≡ id
      → handle c e views ≡ (ok tt, insert id w views)
  unfolding handle upsert get
  handled_as id e views w stored is own =
      rw (stored.of_user, stored.named, stored.opened, is) (ap (λ i. (ok tt, insert i w views)) own)

  handle-IsCurrent :
      (id : ℕ) (e : DomainEvent) (views : Views) (a a' : Aggregate User)
      → IsStored id e
      → replay_event c apply registry e a ≡ (ok tt, a')
      → Shows (get_or zero_view (get id views)) a.state
      → a.base.id ≡ id
      → (views' : Views) × (handle c e views ≡ (ok tt, views')) × IsCurrent id views' a'
  unfolding handle upsert get replay_event
  handle-IsCurrent id e views a a' stored replayed shows own =
      let (done, version, same_id) =
        replay_applied-eq e a a' (apply stored.event a.state)
          (subst (λ r. replay_decoded c apply e a r ≡ (ok tt, a')) stored.decoded replayed) in
      let (w, is, shown, w_id, w_version) =
        updated-Shows stored.event e.payload
          (record (get_or zero_view (lookup id views)) { id = id; version = e.aggregate_version })
          a.state a'.state stored.read done shows in
      (
        insert id w views,
        handled_as id e views w stored is w_id,
        (
          lookup-insert_self id w views
              ∙ ap some
                  (view-eq w a' shown (w_id ∙ sym own ∙ sym same_id) (w_version ∙ sym version)),
          same_id ∙ own,
        ),
      )

  -- A replay that succeeds has replayed its first event, and then the rest.
  replayed-rest :
      (es : List DomainEvent) (u : Aggregate User) (p : Result (Unit {0}) × Aggregate User)
      → ◌≡◌ {A = Result (Unit {0}) × Aggregate User}
          (elim p.0 [ ok _ ↦ load_from_history c apply registry es p.1 | err x ↦ (err x, p.1) ])
          (ok tt, u)
      → (a' : Aggregate User) × (p ≡ (ok tt, a'))
        × (load_from_history c apply registry es a' ≡ (ok tt, u))
  replayed-rest es u (err x, a') h = absurd (let bad : err x ≡ ok tt = ap (λ p. p.0) h in cc)
  replayed-rest es u (ok _, a') h = (a', refl, h)

  -- The rest of a history that is replayed without error is projected without error.
  project-IsCurrent :
      (id : ℕ) (es : List DomainEvent) (views : Views) (a u : Aggregate User)
      → All (IsStored id) es
      → load_from_history c apply registry es a ≡ (ok tt, u)
      → IsCurrent id views a
      → (views' : Views) × (project c es views ≡ (ok tt, views')) × IsCurrent id views' u
  unfolding project load_from_history
  project-IsCurrent id [] views a u stored h now =
      (views, refl, subst (IsCurrent id views) (ap (λ p. p.1) h) now)
  project-IsCurrent id (e ∷ es) views a u (s, stored) h (shown, own) =
      let (a', replayed, rest) = replayed-rest es u (replay_event c apply registry e a) h in
      let shows = ap (get_or zero_view) shown in
      let (views', is, now) =
        handle-IsCurrent id e views a a' s replayed
          (ap (λ v. v.email) shows, ap (λ v. v.name) shows) own in
      let (last, done, current) = project-IsCurrent id es views' a' u stored rest now in
      (last, rw is done, current)

-- The read model follows the aggregate. Take the history of a user that replays without error on an
-- aggregate that has the user's id and no fields yet. Handled in order by the projector, on views
-- that do not have the user, its events raise no error, and the view they leave of the user is the
-- one that the aggregate gives: its id, email, name and version. The events are those of the user,
-- their keys are there, and the registry and the projector read each payload as the same event.
pub project-IsCurrent_new :
    (c : Codec UserEvent) (registry : Registry UserEvent) (id : ℕ) (e : DomainEvent)
    (es : List DomainEvent) (views : Views) (a u : Aggregate User)
    → All (IsStored c registry id) (e ∷ es)
    → load_from_history c apply registry (e ∷ es) a ≡ (ok tt, u)
    → get id views ≡ none
    → a.base.id ≡ id
    → a.state ≡ zero_user
    → (views' : Views) × (project c (e ∷ es) views ≡ (ok tt, views'))
      × (get id views' ≡ some (to_view u))
unfolding project load_from_history
project-IsCurrent_new c registry id e es views a u (s, stored) h absent own zero =
    let (a', replayed, rest) =
      replayed-rest c registry es u (replay_event c apply registry e a) h in
    let shows = ap (get_or zero_view) absent in
    let (views', is, now) =
      handle-IsCurrent c registry id e views a a' s replayed
        (
          ap (λ v. v.email) shows ∙ ap (λ z. z.email) (sym zero),
          ap (λ v. v.name) shows ∙ ap (λ z. z.name) (sym zero),
        )
        own in
    let (last, done, current) = project-IsCurrent c registry id es views' a' u stored rest now in
    (last, rw is done, current.0)
