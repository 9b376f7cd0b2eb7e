-- ===== src/Memstore/Stream/Owed.antt =====
-- es/memstore/eventstore.go: the event that a Commit has still to send to a channel.
use go_es_light.Base.{
  ℕ, ◌≡◌, refl, true, Option, none, some, List, [], ◌∷◌, lookup, nat_eq, ◌==◌, inl, inr, Bool-cases,
  contains, not, ◌&&◌, if◌then◌else◌, map, arith, ◌≢◌,
}
use mathlib.Core.Path.{subst}
use go_es_light.Event.{DomainEvent}
use go_es_light.Memstore.Stream.{without}

-- The event under way to the channel, if Commit has still to send it.
abbrev pub owed : ℕ → Option (DomainEvent × List ℕ) → List DomainEvent
owed ch none = []
owed ch (some (e, cs)) = if contains ch cs then e ∷ [] else []

pub contains-without :
    (c ch : ℕ) (cs : List ℕ) → contains ch (without c cs) ≡ not (c == ch) && contains ch cs
contains-without c ch [] = ground arith
contains-without c ch (x ∷ cs) = ground (arith, contains-without c ch cs)

pub subscribed :
    (ch : ℕ) (m : List (ℕ × List DomainEvent)) (q : List DomainEvent)
    → lookup ch m ≡ some q
    → contains ch (map (λ sub. sub.0) m) ≡ true
unfolding lookup
subscribed ch [] q h = cc
subscribed ch ((c, l) ∷ m) q h = elim (Bool-cases (c == ch)) [
  | inl e ↦ rw e refl
  | inr e ↦ rw e (subscribed ch m q (subst (λ b. (if b then some l else lookup ch m) ≡ some q) e h))
]

pub owed-sent :
    (ch : ℕ) (e : DomainEvent) (cs : List ℕ)
    → contains ch cs ≡ true
    → owed ch (some (e, cs)) ≡ e ∷ []
owed-sent ch e cs h = rw h refl

pub owed-without_self :
    (ch : ℕ) (e : DomainEvent) (cs : List ℕ) → owed ch (some (e, without ch cs)) ≡ []
owed-without_self ch e cs = ground (arith, contains-without ch ch cs)

pub owed-without_other :
    (c ch : ℕ) (e : DomainEvent) (cs : List ℕ)
    → c ≢ ch
    → owed ch (some (e, without c cs)) ≡ owed ch (some (e, cs))
owed-without_other c ch e cs h = ground (arith, contains-without c ch cs)
