-- ===== src/Pgstore/Polling.antt =====
-- StreamAll of es/pgstore/eventstore.go: the loop that drains the log page by page, and the loop that
-- drains it again at each wake-up.
pub mod Pages
pub mod Delivery
use go_es_light.Base.{
  map, ℕ, zero, suc, Bool, true, false, Option, none, some, List, [], ◌∷◌, ◌++◌, Result, ok, err,
  Error, if◌then◌else◌,
}
use go_es_light.Int.{pos}
use go_es_light.Event.{DomainEvent}
use go_es_light.StoreConfig.{StoreOption}
use go_es_light.Pgstore.{Store}
use go_es_light.Pgstore.Database.{Database, fetch_after}

-- FetchAfter with the limit of a page: from the last id to the events behind it.
abbrev pub Fetch : Type 0
Fetch = ℕ → Result (List DomainEvent)

-- FetchAfter(ctx, lastID, 500, ...)
abbrev pub page_size : ℕ
page_size = 500

-- How a drain ends: `return true, nil`, `return false, nil` at a cancellation, `return false, err`;
-- or the rounds given to it did not suffice.
pub data Drained : Type 0 where
  caught_up : Drained
  cancelled : Drained
  failed : Error → Drained
  out_of_rounds : Drained

-- lastID, what was sent on `out`, after how many more sends the context is done, if it ever is, and how
-- many times FetchAfter was called.
pub record Reader : Type 0 where
  pub last_id : ℕ
  pub received : List DomainEvent
  pub until : Option ℕ
  pub asked : ℕ

-- case out <- e: lastID = e.GlobalID
abbrev pub sent : DomainEvent → Option ℕ → Reader → Reader
sent e left r = record r { last_id = e.global_id; received = r.received ++ e ∷ []; until = left }

-- The loop over a page, and whether it came to its end.
unfoldable pub deliver : List DomainEvent → Option ℕ → Reader → Bool × Reader
deliver [] left r = (true, record r { until = left })
deliver (e ∷ es) none r = deliver es none (sent e none r)
deliver (e ∷ es) (some zero) r = (false, record r { until = some zero })
deliver (e ∷ es) (some (suc n)) r = deliver es (some n) (sent e (some n) r)

abbrev pub after_page : (Reader → Drained × Reader) → Bool × Reader → Drained × Reader
after_page again (true, r) = again r
after_page again (false, r) = (Drained.cancelled, r)

abbrev pub with_page :
    (Reader → Drained × Reader) → Reader → Result (List DomainEvent) → Drained × Reader
with_page again r (err x) = (Drained.failed x, r)
with_page again r (ok []) = (Drained.caught_up, r)
with_page again r (ok (e ∷ es)) = after_page again (deliver (e ∷ es) r.until r)

abbrev pub counted : Reader → Reader
counted r = record r { asked = suc r.asked }

-- drain, for at most `fuel` pages; the n-th call of FetchAfter finds the database as it is then.
unfoldable pub drain : ℕ → (ℕ → Fetch) → Reader → Drained × Reader
unfolding deliver
drain zero fetch r = (Drained.out_of_rounds, r)
drain (suc fuel) fetch r = with_page (drain fuel fetch) (counted r) (fetch r.asked r.last_id)

abbrev pub woken : (Reader → Drained × Reader) → Drained × Reader → Drained × Reader
woken again (Drained.caught_up, r) = again r
woken again (o, r) = (o, r)

-- The goroutine's drains: the first, and one for each wake-up.
unfoldable pub stream : ℕ → ℕ → (ℕ → Fetch) → Reader → Drained × Reader
unfolding drain
stream fuel zero fetch r = drain fuel fetch r
stream fuel (suc wakeups) fetch r = woken (stream fuel wakeups fetch) (drain fuel fetch r)

-- Store.StreamAll from its first drain on: `databases` has the state of the database at each call of
-- FetchAfter, `until` is after how many events the context is done, and each drain has `fuel` rounds.
unfoldable pub stream_all :
    {D T : Type 0}
    → Database D T
    → Store
    → List StoreOption
    → ℕ
    → ℕ
    → Option ℕ
    → (ℕ → D)
    → Drained × Reader
unfolding stream
stream_all db s opts fuel wakeups until databases =
    stream fuel wakeups (λ n last_id. fetch_after db s last_id (pos page_size) opts (databases n))
      (record { last_id = 0; received = []; until = until; asked = 0 })
