-- ===== src/Pgstore/Advisory/Exclusion.antt =====
-- Leader election by AdvisoryLock of es/pgstore/advisory_lock.go.
use go_es_light.Base.{
  ℕ, ◌≡◌, inl, inr, refl, ap, sym, ◌∙◌, Bool, true, false, Option, none, some, List, ◌==◌, nat_eq,
  Bytes, Result, ok, err, ◌>>=◌, if◌then◌else◌, Bool-cases, >>=-eq-ok, ok-injective,
}
use mathlib.Core.Path.{subst}
use go_es_light.Pgstore.{Value}
use go_es_light.Pgstore.Rows.{scan_boolean}
use go_es_light.Pgstore.Advisory.{
  Sessions, AdvisoryLock, new_advisory_lock, try_statement, unlock_statement, scanned, connected,
  try_acquire, released, release, Fleet, replaced, Step, Reach,
}

-- What the lock needs of PostgreSQL and of the pool: at most one session, `holder`, holds the lock
-- `name`, a session that asks for it gets it only as the holder, and loses it by its own unlock or
-- close; and the pool gives no connection to two callers.
pub record AreExclusive {D C : Type 0} (s : Sessions D C) (name : Bytes) (holder : D → Option C)
    (InUse : D → C → Type 0) : Type 0 where
  pub keeps_conn :
      (d : D) (c : C)
      → holder d ≡ some c
      → InUse d c
      → (holder (s.conn d).1 ≡ some c) × InUse (s.conn d).1 c
  pub unused : (d d' : D) (c : C) → s.conn d ≡ (ok c, d') → ¬ InUse d c
  pub used : (d d' : D) (c : C) → s.conn d ≡ (ok c, d') → InUse d' c
  pub keeps_try :
      (c c' : C) (d : D)
      → holder d ≡ some c'
      → InUse d c'
      → (holder (s.conn_query_row c (try_statement name) d).1 ≡ some c')
        × InUse (s.conn_query_row c (try_statement name) d).1 c'
  pub grants :
      (c : C) (d d' : D) (row : List Value) (p : Bool × List Value)
      → s.conn_query_row c (try_statement name) d ≡ (ok row, d')
      → scan_boolean row ≡ ok p
      → p.0 ≡ true
      → InUse d c
      → (holder d' ≡ some c) × InUse d' c
  pub keeps_close :
      (c c' : C) (d : D)
      → ¬ (c' ≡ c)
      → holder d ≡ some c'
      → InUse d c'
      → (holder (s.conn_close c d).1 ≡ some c') × InUse (s.conn_close c d).1 c'

-- A connection that no value can be is none.
none_of {ℓ} : {A : Type ℓ} (o : Option A) → ((a : A) → ¬ (o ≡ some a)) → o ≡ none
none_of none h = refl
none_of (some a) h = absurd (h a refl)

module _ {D C : Type 0} (s : Sessions D C) (name : Bytes) (holder : D → Option C)
    (InUse : D → C → Type 0) (laws : AreExclusive s name holder InUse) where
  -- A lock with a connection has the one that holds the lock in the database.
  abbrev Leads : D → C → Type 0
  Leads d c = (holder d ≡ some c) × InUse d c

  -- All locks have the name, those that lead hold it, and no two of them lead.
  record IsElected (locks : Fleet C) (d : D) : Type 0 where
    named : (i : ℕ) → (locks i).name ≡ name
    led : (i : ℕ) (c : C) → (locks i).conn ≡ some c → Leads d c
    one : (i j : ℕ) (c c' : C) → (locks i).conn ≡ some c → (locks j).conn ≡ some c' → i ≡ j

  replaced-elim :
      (P : AdvisoryLock C → Type 0) (i : ℕ) (l : AdvisoryLock C) (locks : Fleet C) (j : ℕ)
      → ((j ≡ i) → P l)
      → (¬ (j ≡ i) → P (locks j))
      → P (replaced i l locks j)
  replaced-elim P i l locks j same other = elim (Bool-cases (j == i)) [
    | inl h ↦ subst (λ b. P (if b then l else locks j)) (sym h) (same ((nat_eq.beq_iff j i).0 h))
    | inr h ↦
        subst (λ b. P (if b then l else locks j)) (sym h)
          (other (λ e. absurd (let bad : true ≡ false = sym ((nat_eq.beq_iff j i).1 e) ∙ h in cc)))
  ]

  -- A lock that keeps its connection, while the database takes the lock from no one that leads.
  kept :
      (i : ℕ) (l : AdvisoryLock C) (locks : Fleet C) (d d' : D)
      → l ≡ locks i
      → ((c : C) → Leads d c → Leads d' c)
      → IsElected locks d
      → IsElected (replaced i l locks) d'
  kept i l locks d d' same keeps v =
      let at : (j : ℕ) → replaced i l locks j ≡ locks j = λ j.
        replaced-elim (λ k. k ≡ locks j) i l locks j (λ h. same ∙ ap locks (sym h)) (λ h. refl) in
      record {
        named = λ j. ap (λ k. k.name) (at j) ∙ v.named j;
        led = λ j c h. keeps c (v.led j c (sym (ap (λ k. k.conn) (at j)) ∙ h));
        one = λ j k c c' h h'.
            v.one j k c c' (sym (ap (λ k. k.conn) (at j)) ∙ h) (sym (ap (λ k. k.conn) (at k)) ∙ h');
      }

  -- A lock, while no other one has a connection.
  alone :
      (i : ℕ) (l : AdvisoryLock C) (locks : Fleet C) (d d' : D)
      → l.name ≡ name
      → ((c : C) → l.conn ≡ some c → Leads d' c)
      → ((j : ℕ) (c : C) → (locks j).conn ≡ some c → j ≡ i)
      → IsElected locks d
      → IsElected (replaced i l locks) d'
  alone i l locks d d' called leads only v =
      let leader : (j : ℕ) (c : C) → (replaced i l locks j).conn ≡ some c → j ≡ i = λ j.
        replaced-elim (λ k. (c : C) → k.conn ≡ some c → j ≡ i) i l locks j (λ h c q. h)
          (λ h. only j) in
      record {
        named = λ j. replaced-elim (λ k. k.name ≡ name) i l locks j (λ h. called) (λ h. v.named j);
        led = λ j.
            replaced-elim (λ k. (c : C) → k.conn ≡ some c → Leads d' c) i l locks j (λ h. leads)
              (λ h c q. absurd (h (only j c q)));
        one = λ j k c c' h h'. leader j c h ∙ sym (leader k c' h');
      }

  module _ (i : ℕ) (locks : Fleet C) (d : D) (v : IsElected locks d) where
    scanned-IsElected :
        (c : C) (d' : D) (r : Result Bool)
        → ((c' : C) → Leads d c' → Leads d' c')
        → ((c' : C) → Leads d c' → ¬ (c' ≡ c))
        → (r ≡ ok true → Leads d' c)
        → IsElected
            (replaced i (scanned s (locks i) c d' r).lock locks)
            (scanned s (locks i) c d' r).database
    scanned-IsElected c d' (err x) keeps fresh granted =
        kept i (locks i) locks d (s.conn_close c d').1 refl
          (λ c' h. let (held, used) = keeps c' h in laws.keeps_close c c' d' (fresh c' h) held used)
          v
    scanned-IsElected c d' (ok false) keeps fresh granted =
        kept i (locks i) locks d (s.conn_close c d').1 refl
          (λ c' h. let (held, used) = keeps c' h in laws.keeps_close c c' d' (fresh c' h) held used)
          v
    scanned-IsElected c d' (ok true) keeps fresh granted =
        let (mine, used) = granted refl in
        alone i (record (locks i) { conn = some c }) locks d d' (v.named i)
          (λ c' q. subst (Leads d') (let same : c ≡ c' = cc in same) (mine, used))
          (λ j c' q.
            let h = v.led j c' q in
            let held = (keeps c' h).0 in absurd (fresh c' h (let same : c' ≡ c = cc in same)))
          v

    queried-granted :
        (c : C) (d' : D) (p : Result (List Value) × D)
        → s.conn_query_row c (try_statement name) d' ≡ p
        → InUse d' c
        → (p.0 >>= λ row. scan_boolean row >>= λ b. ok b.0) ≡ ok true
        → Leads p.1 c
    queried-granted c d' (err x, d'') h used g = cc
    queried-granted c d' (ok row, d'') h used g =
        let (b, scanned_row, same) = >>=-eq-ok (scan_boolean row) (λ b. ok b.0) g in
        laws.grants c d' d'' row b h scanned_row (ok-injective same) used

    connected-IsElected :
        (p : Result C × D)
        → s.conn d ≡ p
        → IsElected
            (replaced i (connected s (locks i) p).lock locks)
            (connected s (locks i) p).database
    connected-IsElected (err x, d') h =
        kept i (locks i) locks d d' refl
          (λ c u. subst (λ p. Leads p.1 c) h (laws.keeps_conn d c u.0 u.1)) v
    connected-IsElected (ok c, d') h =
        let q = s.conn_query_row c (try_statement (locks i).name) d' in
        let named : s.conn_query_row c (try_statement name) d' ≡ q =
          ap (λ n. s.conn_query_row c (try_statement n) d') (sym (v.named i)) in
        scanned-IsElected c q.1 (q.0 >>= λ row. scan_boolean row >>= λ b. ok b.0)
          (λ c' u.
            let (held, used) = subst (λ p. Leads p.1 c') h (laws.keeps_conn d c' u.0 u.1) in
            subst (λ p. Leads p.1 c') named (laws.keeps_try c c' d' held used))
          (λ c' u same. laws.unused d d' c h (subst (InUse d) same u.1))
          (queried-granted c d' q named (laws.used d d' c h))

    released-IsElected :
        (o : Option C)
        → (locks i).conn ≡ o
        → IsElected
            (replaced i (released s (locks i) d o).lock locks)
            (released s (locks i) d o).database
    released-IsElected none h = kept i (locks i) locks d d refl (λ c u. u) v
    released-IsElected (some c) h =
        alone i (record (locks i) { conn = none }) locks d
          (s.conn_close c (s.conn_exec c (unlock_statement (locks i).name) d).1).1 (v.named i)
          (λ c' q. cc) (λ j c' q. v.one j i c' c q h) v

  Step-IsElected :
      {locks : Fleet C} {d : D} {locks' : Fleet C} {d' : D}
      → Step s locks d locks' d'
      → IsElected locks d
      → IsElected locks' d'
  unfolding try_acquire release
  Step-IsElected {locks = locks} {d = d} (Step.tries i) v =
      connected-IsElected i locks d v (s.conn d) refl
  Step-IsElected {locks = locks} {d = d} (Step.releases i) v =
      released-IsElected i locks d v (locks i).conn refl

  Reach-IsElected :
      {locks : Fleet C} {d : D} {locks' : Fleet C} {d' : D}
      → Reach s locks d locks' d'
      → IsElected locks d
      → IsElected locks' d'
  Reach-IsElected (Reach.here) v = v
  Reach-IsElected (Reach.next r t) v = Step-IsElected t (Reach-IsElected r v)

-- From new locks of one name, over a database whose sessions exclude each other, no calls of
-- TryAcquire and Release lead to two replicas whose locks both have a connection: the others'
-- locks have none while one has.
pub try_acquire-Reach-excludes :
    {D C : Type 0} (s : Sessions D C) (name : Bytes) (holder : D → Option C)
    (InUse : D → C → Type 0) (locks : Fleet C) (d d' : D)
    → AreExclusive s name holder InUse
    → Reach s (λ i. new_advisory_lock name) d locks d'
    → (i j : ℕ) (c : C) → (locks i).conn ≡ some c
    → ¬ (i ≡ j)
    → (locks j).conn ≡ none
unfolding new_advisory_lock
try_acquire-Reach-excludes s name holder InUse locks d d' laws r i j c leads other =
    let v =
      Reach-IsElected s name holder InUse laws r
        (record { named = λ k. refl; led = λ k c h. cc; one = λ k m c c' h h'. cc }) in
    none_of (locks j).conn (λ c' h. other (v.one i j c c' leads h))
