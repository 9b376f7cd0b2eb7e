-- ===== src/Examples/Locks.antt =====
-- The locks of es/pgstore/advisory_lock.go over sessions with numbers.
use go_es_light.Base.{
  ℕ, ◌+◌, ◌<◌, ◌≡◌, refl, ap, sym, ◌∙◌, Bool, true, Option, none, some, [], ◌∷◌, ◌==◌, nat_eq,
  Bytes, bytes, ok, ok-injective, arith, if◌then◌else◌,
}
use go_es_light.Pgstore.{Value}
use go_es_light.Pgstore.Rows.{scan_boolean}
use go_es_light.Pgstore.Advisory.{
  Sessions, new_advisory_lock, try_acquire, Fleet, replaced, Step, Reach,
}
use go_es_light.Pgstore.Advisory.Exclusion.{AreExclusive, try_acquire-Reach-excludes}

-- The session that holds the lock, and the number of the next connection.
abbrev Server : Type 0
Server = Option ℕ × ℕ

abbrev is_granted : Option ℕ → ℕ → Bool
is_granted none c = true
is_granted (some h) c = h == c

abbrev asked : Option ℕ → ℕ → Option ℕ
asked none c = some c
asked (some h) c = some h

abbrev freed : Option ℕ → ℕ → Option ℕ
freed none c = none
freed (some h) c = if h == c then none else some h

abbrev server : Sessions Server ℕ
server = record {
  conn = λ d. (ok d.1, (d.0, d.1 + 1));
  conn_query_row = λ c q d. (ok (Value.boolean (is_granted d.0 c) ∷ []), (asked d.0 c, d.1));
  conn_exec = λ c q d. (ok tt, (freed d.0 c, d.1));
  conn_close = λ c d. (ok tt, d);
}

abbrev ConnectedTo : Server → ℕ → Type 0
ConnectedTo d c = c < d.1

asked-keeps : (h : Option ℕ) (c c' : ℕ) → h ≡ some c' → asked h c ≡ some c'
asked-keeps none c c' e = cc
asked-keeps (some h) c c' e = e

asked-granted : (h : Option ℕ) (c : ℕ) → is_granted h c ≡ true → asked h c ≡ some c
asked-granted none c e = refl
asked-granted (some h) c e = ap some ((nat_eq.beq_iff h c).0 e)

server-AreExclusive : (name : Bytes) → AreExclusive server name (λ d. d.0) ConnectedTo
server-AreExclusive name = record {
  keeps_conn = λ d c held used. (held, omega arith);
  unused = λ d d' c h used. let same : d.1 ≡ c = ok-injective (ap (λ p. p.0) h) in omega arith;
  used = λ d d' c h.
      let same : d.1 ≡ c = ok-injective (ap (λ p. p.0) h) in
      let next : d.1 + 1 ≡ d'.1 = ap (λ p. p.1.1) h in omega arith;
  keeps_try = λ c c' d held used. (asked-keeps d.0 c c' held, used);
  grants = λ c d d' row p h scanned yes used.
      let answer : ok (is_granted d.0 c, []) ≡ ok p =
        ap scan_boolean (ok-injective (ap (λ p. p.0) h)) ∙ scanned in
      let next : d.1 ≡ d'.1 = ap (λ p. p.1.1) h in
      (
        sym (ap (λ p. p.1.0) h) ∙ asked-granted d.0 c (ap (λ p. p.0) (ok-injective answer) ∙ yes),
        omega arith,
      );
  keeps_close = λ c c' d other held used. (held, used);
}

abbrev replicas : Fleet ℕ
replicas j = new_advisory_lock (bytes "projector")

abbrev first_tries : Fleet ℕ
first_tries = replaced 0 (try_acquire server (replicas 0) (none, 0)).lock replicas

abbrev both_try : Fleet ℕ
both_try = replaced 1 (try_acquire server (first_tries 1) (some 0, 1)).lock first_tries

both_reached : Reach server replicas (none, 0) both_try (some 0, 2)
unfolding try_acquire new_advisory_lock
both_reached = Reach.next (Reach.next (Reach.here) (Step.tries 0)) (Step.tries 1)

first_leads : (both_try 0).conn ≡ some 0
unfolding try_acquire new_advisory_lock
first_leads = refl

try_acquire-Reach-excludes_example : (both_try 1).conn ≡ none
try_acquire-Reach-excludes_example =
    try_acquire-Reach-excludes server (bytes "projector") (λ d. d.0) ConnectedTo both_try (none, 0)
      (some 0, 2) (server-AreExclusive (bytes "projector")) both_reached 0 1 0 first_leads (λ h. cc)
