-- ===== src/Pgstore/Polling/Delivery.antt =====
-- StreamAll of es/pgstore/eventstore.go: its loops end and deliver the log.
use go_es_light.Base.{
  ℕ, zero, suc, ◌<◌, ◌≡◌, refl, ap, sym, ◌∙◌, true, List, [], ◌∷◌, ◌++◌, append-nil, append_assoc,
  map, take, drop, take-append-drop, length, length-append, All, All-take, All-filter_of, ltb, ok,
  err, arith, ◌⊎◌, inl, inr, Bool, false, Option, Result, Error, ◌+◌, ◌>>=◌, context,
}
use mathlib.Core.Path.{subst, ap₂}
use go_es_light.Int.{pos}
use go_es_light.Event.{DomainEvent}
use go_es_light.StoreConfig.{StoreOption, resolve_store_config}
use go_es_light.Pgstore.{Value, Store}
use go_es_light.Pgstore.Queries.{fetch_after_query}
use go_es_light.Pgstore.Rows.{Rows, scan_event, scan_rows, scan_events}
use go_es_light.Pgstore.Database.{Database, fetch_after}
use go_es_light.Pgstore.Polling.{
  Fetch, page_size, Drained, Reader, deliver, after_page, with_page, counted, drain, woken, stream,
  stream_all,
}
use go_es_light.Pgstore.Polling.Pages.{
  Ascending, Delivered, after, after-last_of, deliver-Delivered, last_of, last_of-append, page,
}

-- FetchAfter fails, or gives the page of the log behind the last id.
abbrev pub Answered : List DomainEvent → ℕ → Result (List DomainEvent) → Type 0
Answered log last r = ((x : Error) × (r ≡ err x)) ⊎ (r ≡ page log last)

-- The log as the calls of FetchAfter find it: from one to the next it grows at its end, if at all.
pub record Grows (logs : ℕ → List DomainEvent) : Type 0 where
  pub grown : (n : ℕ) → (new : List DomainEvent) × (logs (suc n) ≡ logs n ++ new)
  pub ascending : (n : ℕ) → Ascending 0 (logs n)

-- What was received is a beginning of the log, and the last id is the one of its last event.
abbrev pub IsBeginning : (ℕ → List DomainEvent) → Reader → Type 0
IsBeginning logs r =
    ((rest : List DomainEvent) × (logs r.asked ≡ r.received ++ rest))
    × (r.last_id ≡ last_of 0 r.received)

-- The stream that is up to date has received the log that its last call of FetchAfter found.
abbrev pub Delivers : (ℕ → List DomainEvent) → Drained × Reader → Type 0
Delivers logs (Drained.caught_up, r) =
    IsBeginning logs r × ((n : ℕ) × (r.asked ≡ suc n) × (r.received ≡ logs n))
Delivers logs (Drained.cancelled, r) = IsBeginning logs r
Delivers logs (Drained.failed x, r) = IsBeginning logs r
Delivers logs (Drained.out_of_rounds, r) = ⊥

module _ (logs : ℕ → List DomainEvent) (grows : Grows logs) where
  -- A beginning of the log is one of the log of later.
  IsBeginning-later :
      (r r' : Reader) (xs ys : List DomainEvent)
      → logs r.asked ≡ (r.received ++ xs) ++ ys
      → r.last_id ≡ last_of 0 r.received
      → r'.received ≡ r.received ++ xs
      → r'.last_id ≡ last_of r.last_id xs
      → r'.asked ≡ suc r.asked
      → IsBeginning logs r'
  IsBeginning-later r r' xs ys known last got last' next =
      let (new, larger) = grows.grown r.asked in
      (
        (
          ys ++ new,
          ap logs next
              ∙ larger
              ∙ ap (λ l. l ++ new) (known ∙ ap (λ l. l ++ ys) (sym got))
              ∙ append_assoc r'.received ys new,
        ),
        last'
            ∙ ap (λ n. last_of n xs) last
            ∙ sym (last_of-append 0 r.received xs)
            ∙ ap (last_of 0) (sym got),
      )

  -- Behind the last id of what was received comes the rest.
  after-received :
      (r : Reader) (rest : List DomainEvent)
      → logs r.asked ≡ r.received ++ rest
      → r.last_id ≡ last_of 0 r.received
      → after r.last_id (logs r.asked) ≡ rest
  after-received r rest known last =
      ap₂ after last known
      ∙ after-last_of 0 r.received rest (subst (Ascending 0) known (grows.ascending r.asked))

  module _ (fetch : ℕ → Fetch)
      (answered : (n last : ℕ) → Answered (logs n) last (fetch n last)) where
    with_page-Delivers :
        (fuel : ℕ) (r : Reader) (page' rest : List DomainEvent)
        → ((r' : Reader)
            → IsBeginning logs r'
            → length r.received < length r'.received
            → Delivers logs (drain fuel fetch r'))
        → logs r.asked ≡ r.received ++ (page' ++ rest)
        → r.last_id ≡ last_of 0 r.received
        → (page' ≡ [] → rest ≡ [])
        → Delivers logs (with_page (drain fuel fetch) (counted r) (ok page'))
    with_page-Delivers fuel r [] rest again known last empty = (
      IsBeginning-later r (counted r) [] rest
          (known ∙ ap (λ l. l ++ rest) (sym (append-nil r.received))) last
          (sym (append-nil r.received)) refl refl,
      (r.asked, refl, sym (known ∙ ap (◌++◌ r.received) (empty refl) ∙ append-nil r.received)),
    )
    with_page-Delivers fuel r (e ∷ es) rest again known last empty =
        delivered (deliver (e ∷ es) r.until (counted r))
          (deliver-Delivered (e ∷ es) r.until (counted r))
      where
        begins :
            (r' : Reader) (xs ys : List DomainEvent)
            → e ∷ es ≡ xs ++ ys
            → r'.received ≡ r.received ++ xs
            → r'.last_id ≡ last_of r.last_id xs
            → r'.asked ≡ suc r.asked
            → IsBeginning logs r'
        begins r' xs ys split got last' next =
            IsBeginning-later r r' xs (ys ++ rest)
              (known
                ∙ ap (λ l. r.received ++ (l ++ rest)) split
                ∙ ap (◌++◌ r.received) (append_assoc xs ys rest)
                ∙ sym (append_assoc r.received xs (ys ++ rest)))
              last got last' next

        delivered :
            (p : Bool × Reader)
            → Delivered (e ∷ es) (counted r) p
            → Delivers logs (after_page (drain fuel fetch) p)
        delivered (true, r') (xs, ys, split, got, last', next, whole) =
            again r' (begins r' xs ys split got last' next) (
              omega (
                arith,
                ap length got,
                length-append r.received xs,
                ap length split,
                length-append xs ys,
                ap length (whole refl),
              ))
        delivered (false, r') (xs, ys, split, got, last', next, whole) =
            begins r' xs ys split got last' next

    drain-Delivers :
        (fuel : ℕ) (r : Reader)
        → IsBeginning logs r
        → ((n : ℕ) → length (logs n) < length r.received + fuel)
        → Delivers logs (drain fuel fetch r)
    unfolding drain
    drain-Delivers zero r ((rest, known), last) short =
        absurd (omega (arith, short r.asked, ap length known, length-append r.received rest))
    drain-Delivers (suc fuel) r ((rest, known), last) short = elim (answered r.asked r.last_id) [
      | inl (x, failed) ↦
          subst (λ p. Delivers logs (with_page (drain fuel fetch) (counted r) p)) (sym failed)
            (IsBeginning-later r (counted r) [] rest
              (known ∙ ap (λ l. l ++ rest) (sym (append-nil r.received))) last
              (sym (append-nil r.received)) refl refl)
      | inr good ↦
          let found = good ∙ ap (λ l. ok (take page_size l)) (after-received r rest known last) in
          subst (λ p. Delivers logs (with_page (drain fuel fetch) (counted r) p)) (sym found)
            (with_page-Delivers fuel r (take page_size rest) (drop page_size rest)
              (λ r' h longer. drain-Delivers fuel r' h (λ n. omega (arith, short n)))
              (known ∙ ap (◌++◌ r.received) (sym (take-append-drop page_size rest))) last
              (no_more rest))
    ]
      where
        no_more : (l : List DomainEvent) → take page_size l ≡ [] → drop page_size l ≡ []
        no_more [] h = refl
        no_more (e ∷ es) h = cc

    stream-Delivers :
        (fuel wakeups : ℕ) (r : Reader)
        → IsBeginning logs r
        → ((n : ℕ) → length (logs n) < fuel)
        → Delivers logs (stream fuel wakeups fetch r)
    unfolding stream
    stream-Delivers fuel zero r h short = drain-Delivers fuel r h (λ n. omega (arith, short n))
    stream-Delivers fuel (suc wakeups) r h short =
        resumed (drain fuel fetch r) (λ r' h'. stream-Delivers fuel wakeups r' h' short)
          (drain-Delivers fuel r h (λ n. omega (arith, short n)))
      where
        resumed :
            (p : Drained × Reader)
            → ((r' : Reader) → IsBeginning logs r' → Delivers logs (stream fuel wakeups fetch r'))
            → Delivers logs p
            → Delivers logs (woken (stream fuel wakeups fetch) p)
        resumed (Drained.caught_up, r') again (h', _) = again r' h'
        resumed (Drained.cancelled, r') again h' = h'
        resumed (Drained.failed x, r') again h' = h'
        resumed (Drained.out_of_rounds, r') again h' = absurd h'

-- The database answers FetchAfter's statement, if it does not fail, from a table: `log` is the part of
-- it that the options of the call show, in the order of the ids, and `row` the columns of an event.
pub record Answers {D T : Type 0} (db : Database D T) (s : Store) (opts : List StoreOption)
    (log : D → List DomainEvent) (row : DomainEvent → List Value) : Type 0 where
  pub answers :
      (d : D) (last : ℕ) (r : Rows)
      → db.query (fetch_after_query s (resolve_store_config opts) last (pos page_size)) d ≡ ok r
      → r.rows_err ≡ ok tt
      → r.rows ≡ map row (take page_size (after last (log d)))
  pub scans : (d : D) → All (λ e. scan_event s (row e) ≡ ok e) (log d)

module _ {D T : Type 0} (db : Database D T) (s : Store) (opts : List StoreOption)
    (log : D → List DomainEvent) (row : DomainEvent → List Value)
    (h : Answers db s opts log row) where
  scan_rows-map :
      (es : List DomainEvent)
      → All (λ e. scan_event s (row e) ≡ ok e) es
      → scan_rows s (map row es) ≡ ok es
  unfolding scan_rows
  scan_rows-map [] a = refl
  scan_rows-map (e ∷ es) (scanned, a) = rw (scanned, scan_rows-map es a) refl

  ended :
      (o : Result (Unit {0})) (r : Result (List DomainEvent)) (es : List DomainEvent)
      → (o ≡ ok tt → r ≡ ok es)
      → ((x : Error) × ((r >>= λ l. o >>= λ _. ok l) ≡ err x))
        ⊎ ((r >>= λ l. o >>= λ _. ok l) ≡ ok es)
  ended (err x) (err y) es scanned = inl (y, refl)
  ended (err x) (ok l) es scanned = inl (x, refl)
  ended (ok _) r es scanned = inr (rw (scanned refl) refl)

  queried :
      (d : D) (last : ℕ) (q : Result Rows)
      → db.query (fetch_after_query s (resolve_store_config opts) last (pos page_size)) d ≡ q
      → Answered (log d) last (context "pgstore: fetch after" q >>= scan_events s)
  unfolding scan_events
  queried d last (err x) asked = inl (Error.wrap "pgstore: fetch after" x, refl)
  queried d last (ok r) asked =
      let es = take page_size (after last (log d)) in
      let scanned =
        All-take (λ e. scan_event s (row e) ≡ ok e) page_size (after last (log d))
          (All-filter_of (λ e. scan_event s (row e) ≡ ok e) (λ e. ltb last e.global_id) (log d)
            (h.scans d)) in
      ended r.rows_err (scan_rows s r.rows) es
        (λ good. ap (scan_rows s) (h.answers d last r asked good) ∙ scan_rows-map es scanned)

  fetch_after-Answered :
      (d : D) (last : ℕ) → Answered (log d) last (fetch_after db s last (pos page_size) opts d)
  unfolding fetch_after
  fetch_after-Answered d last =
      queried d last
        (db.query (fetch_after_query s (resolve_store_config opts) last (pos page_size)) d) refl

-- StreamAll over a live log. If the log that the stream may see, in the order of its ids, only grows
-- at its end between the calls of FetchAfter, whatever is added while a drain runs, and stays shorter
-- than the rounds of a drain, then every drain ends, and however often the stream is woken: what it has
-- sent is a beginning of the log, so nothing is lost, repeated or out of order, also when it is
-- cancelled or a FetchAfter fails; and when it is up to date it has sent all of the log that its last
-- FetchAfter found. The database answers FetchAfter's statement, if at all, from its table, and the
-- row of an event of the log scans to it.
pub stream_all-Delivers :
    {D T : Type 0} (db : Database D T) (s : Store) (opts : List StoreOption)
    (log : D → List DomainEvent) (row : DomainEvent → List Value) (fuel wakeups : ℕ)
    (until : Option ℕ) (databases : ℕ → D)
    → Answers db s opts log row
    → Grows (λ n. log (databases n))
    → ((n : ℕ) → length (log (databases n)) < fuel)
    → Delivers (λ n. log (databases n)) (stream_all db s opts fuel wakeups until databases)
unfolding stream_all
stream_all-Delivers db s opts log row fuel wakeups until databases h grows short =
    stream-Delivers (λ n. log (databases n)) grows
      (λ n last_id. fetch_after db s last_id (pos page_size) opts (databases n))
      (λ n last. fetch_after-Answered db s opts log row h (databases n) last) fuel wakeups
      (record { last_id = 0; received = []; until = until; asked = 0 })
      ((log (databases 0), refl), refl) short
