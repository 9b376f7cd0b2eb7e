-- ===== src/Memstore/Stream/Kept.antt =====
-- What the goroutine of StreamAll (es/memstore/eventstore.go) has sent and has still to send, and how
-- it changes.
use go_es_light.Base.{
  ℕ, ◌≡◌, refl, ap, sym, ◌∙◌, true, false, Option, some, List, [], ◌∷◌, ◌++◌, append-nil,
  append_assoc, filter, filter-append, nat_eq,
}
use go_es_light.Event.{DomainEvent}
use go_es_light.StoreConfig.{is_visible}
use go_es_light.Memstore.Stream.{Position}

module _ (tenant : Option ℕ) where
  abbrev pub visible : List DomainEvent → List DomainEvent
  visible = filter (is_visible tenant)

  -- What the goroutine has still to send, when q is the content of its channel.
  abbrev waiting : Position → List DomainEvent → List DomainEvent
  waiting (Position.replaying b) q = b ++ visible q
  waiting Position.receiving q = visible q
  waiting (Position.sending e) q = e ∷ visible q
  waiting Position.cancelled q = visible q
  waiting Position.finished q = visible q

  -- As long as the stream runs, what was received and what waits is the visible part of the log.
  abbrev pub Running :
      Position
      → List DomainEvent
      → List DomainEvent
      → Option (List DomainEvent)
      → List DomainEvent
      → Type 0
  Running p received log o u =
      (q : List DomainEvent) × (o ≡ some q) × (received ++ waiting p (q ++ u) ≡ visible log)

  abbrev pub Stopped : List DomainEvent → List DomainEvent → Type 0
  Stopped received log = (rest : List DomainEvent) × (received ++ rest ≡ visible log)

  abbrev pub Kept :
      Position
      → List DomainEvent
      → List DomainEvent
      → Option (List DomainEvent)
      → List DomainEvent
      → Type 0
  Kept Position.cancelled received log o u = Stopped received log
  Kept Position.finished received log o u = Stopped received log
  Kept (Position.replaying b) received log o u = Running (Position.replaying b) received log o u
  Kept Position.receiving received log o u = Running Position.receiving received log o u
  Kept (Position.sending e) received log o u = Running (Position.sending e) received log o u

  pub Running-Stopped :
      (p : Position) (received log : List DomainEvent) (o : Option (List DomainEvent))
      (u : List DomainEvent)
      → Running p received log o u
      → Stopped received log
  Running-Stopped p received log o u (q, e, h) = (waiting p (q ++ u), h)

  waiting-append :
      (p : Position) (q v : List DomainEvent) → waiting p (q ++ v) ≡ waiting p q ++ visible v
  waiting-append (Position.replaying b) q v =
      ap (◌++◌ b) (filter-append (is_visible tenant) q v)
      ∙ sym (append_assoc b (visible q) (visible v))
  waiting-append Position.receiving q v = filter-append (is_visible tenant) q v
  waiting-append (Position.sending e) q v = ap (◌∷◌ e) (filter-append (is_visible tenant) q v)
  waiting-append Position.cancelled q v = filter-append (is_visible tenant) q v
  waiting-append Position.finished q v = filter-append (is_visible tenant) q v

  -- A new event in the log, which Commit has then to send.
  Running-log :
      (p : Position) (received log : List DomainEvent) (o : Option (List DomainEvent))
      (e : DomainEvent) (u u' : List DomainEvent)
      → u ≡ []
      → ((q : List DomainEvent) → o ≡ some q → u' ≡ e ∷ [])
      → Running p received log o u
      → Running p received (log ++ e ∷ []) o u'
  Running-log p received log o e u u' none_owed now_owed (q, known, h) = (
    q,
    known,
    ap (λ v. received ++ waiting p (q ++ v)) (now_owed q known)
        ∙ ap (◌++◌ received) (waiting-append p q (e ∷ []))
        ∙ sym (append_assoc received (waiting p q) (visible (e ∷ [])))
        ∙ ap (λ l. l ++ visible (e ∷ []))
            (ap (λ l. received ++ waiting p l) (sym (append-nil q))
              ∙ ap (λ v. received ++ waiting p (q ++ v)) (sym none_owed)
              ∙ h)
        ∙ sym (filter-append (is_visible tenant) log (e ∷ [])),
  )

  Stopped-log :
      (received log : List DomainEvent) (e : DomainEvent)
      → Stopped received log
      → Stopped received (log ++ e ∷ [])
  Stopped-log received log e (rest, h) = (
    rest ++ visible (e ∷ []),
    sym (append_assoc received rest (visible (e ∷ [])))
        ∙ ap (λ l. l ++ visible (e ∷ [])) h
        ∙ sym (filter-append (is_visible tenant) log (e ∷ [])),
  )

  pub Kept-log :
      (p : Position) (received log : List DomainEvent) (o : Option (List DomainEvent))
      (e : DomainEvent) (u u' : List DomainEvent)
      → u ≡ []
      → ((q : List DomainEvent) → o ≡ some q → u' ≡ e ∷ [])
      → Kept p received log o u
      → Kept p received (log ++ e ∷ []) o u'
  Kept-log (Position.replaying b) received log o e u u' n w h =
      Running-log (Position.replaying b) received log o e u u' n w h
  Kept-log Position.receiving received log o e u u' n w h =
      Running-log Position.receiving received log o e u u' n w h
  Kept-log (Position.sending x) received log o e u u' n w h =
      Running-log (Position.sending x) received log o e u u' n w h
  Kept-log Position.cancelled received log o e u u' n w h = Stopped-log received log e h
  Kept-log Position.finished received log o e u u' n w h = Stopped-log received log e h

  -- The event on its way arrives in the channel.
  Running-arrive :
      (p : Position) (received log q : List DomainEvent) (o o' : Option (List DomainEvent))
      (u u' : List DomainEvent)
      → o ≡ some q
      → o' ≡ some (q ++ u)
      → u' ≡ []
      → Running p received log o u
      → Running p received log o' u'
  Running-arrive p received log q o o' u u' known grown none_owed (q', known', h) =
      let same : q' ≡ q = cc in
      (
        q ++ u,
        grown,
        ap (λ v. received ++ waiting p ((q ++ u) ++ v)) none_owed
            ∙ ap (λ l. received ++ waiting p l) (append-nil (q ++ u))
            ∙ ap (λ l. received ++ waiting p (l ++ u)) (sym same)
            ∙ h,
      )

  pub Kept-arrive :
      (p : Position) (received log q : List DomainEvent) (o o' : Option (List DomainEvent))
      (u u' : List DomainEvent)
      → o ≡ some q
      → o' ≡ some (q ++ u)
      → u' ≡ []
      → Kept p received log o u
      → Kept p received log o' u'
  Kept-arrive (Position.replaying b) received log q o o' u u' k g n h =
      Running-arrive (Position.replaying b) received log q o o' u u' k g n h
  Kept-arrive Position.receiving received log q o o' u u' k g n h =
      Running-arrive Position.receiving received log q o o' u u' k g n h
  Kept-arrive (Position.sending x) received log q o o' u u' k g n h =
      Running-arrive (Position.sending x) received log q o o' u u' k g n h
  Kept-arrive Position.cancelled received log q o o' u u' k g n h = h
  Kept-arrive Position.finished received log q o o' u u' k g n h = h

  -- Reading an event from the channel: one that is skipped, and one that is passed on.
  pub Running-take :
      (received log q : List DomainEvent) (o : Option (List DomainEvent)) (u : List DomainEvent)
      (e : DomainEvent)
      → o ≡ some (e ∷ q)
      → Running Position.receiving received log o u
      → received ++ visible (e ∷ (q ++ u)) ≡ visible log
  Running-take received log q o u e known (q', known', h) =
      let same : q' ≡ e ∷ q = cc in ap (λ l. received ++ visible (l ++ u)) (sym same) ∙ h

  pub sent :
      (received log rest : List DomainEvent) (e : DomainEvent)
      → received ++ e ∷ rest ≡ visible log
      → (received ++ e ∷ []) ++ rest ≡ visible log
  sent received log rest e h = append_assoc received (e ∷ []) rest ∙ h

  pub visible-hidden :
      (e : DomainEvent) (q : List DomainEvent)
      → is_visible tenant e ≡ false
      → visible (e ∷ q) ≡ visible q
  visible-hidden e q h = rw h refl

  pub visible-shown :
      (e : DomainEvent) (q : List DomainEvent)
      → is_visible tenant e ≡ true
      → visible (e ∷ q) ≡ e ∷ visible q
  visible-shown e q h = rw h refl
