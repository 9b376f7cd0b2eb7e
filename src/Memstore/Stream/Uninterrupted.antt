-- ===== src/Memstore/Stream/Uninterrupted.antt =====
-- Commit of es/memstore/eventstore.go as steps, when nothing runs in between.
use go_es_light.Base.{ℕ, ◌+◌, ◌≤◌, ◌≢◌, Option, none, List, [], ◌∷◌, map, length, All, nat_eq}
use go_es_light.Event.{DomainEvent}
use go_es_light.Memstore.{Store, AggregateKey}
use go_es_light.Memstore.Stream.{Position, System, capacity}

abbrev Queues : Type 0
Queues = List (ℕ × List DomainEvent)

abbrev chans : Queues → List ℕ
chans = map (λ sub. sub.0)

abbrev Without : ℕ → Queues → Type 0
Without c = All (λ sub. sub.0 ≢ c)

-- No channel is listed twice.
abbrev pub AreDistinct : Queues → Type 0
AreDistinct [] = Unit
AreDistinct (sub ∷ m) = Without sub.0 m × AreDistinct m

-- Each channel has room for n events.
abbrev pub HaveRoom : ℕ → Queues → Type 0
HaveRoom n = All (λ sub. length sub.1 + n ≤ capacity)

-- None of the channels of the second list is in the first.
abbrev Apart : Queues → Queues → Type 0
Apart pre = All (λ sub. Without sub.0 pre)

module _ (tenant : Option ℕ) (ch : ℕ) where
  abbrev with_queues : System → Queues → Option (DomainEvent × List ℕ) → System
  with_queues s m p = record s { store = record (s.store) { subscribers = m }; publishing = p }

  abbrev writing_state : System → Store → Option (AggregateKey × List DomainEvent) → System
  writing_state s st w = record s { store = st; writing = w; publishing = none }

-- A system in which no Commit is under way.
abbrev pub idle : Store → Position → List DomainEvent → System
idle st position received = record {
  store = st;
  writing = none;
  publishing = none;
  position = position;
  received = received;
}
