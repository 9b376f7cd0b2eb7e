-- ===== src/Pgstore/Rollback.antt =====
-- The deferred Rollback of the transactions of es/pgstore, and what it does to their errors.
use go_es_light.Base.{
  String, ◌≡◌, refl, Bool, true, false, Result, ok, err, Error, is_tx_done, if◌then◌else◌,
}

-- defer func() { rbErr := tx.Rollback(); ... }: `m` is the context that the error gets, the first
-- result what Rollback returned, the second what the body did.
abbrev pub with_rollback : String → Result (Unit {0}) → Result (Unit {0}) → Result (Unit {0})
with_rollback m (ok _) r = r
with_rollback m (err x) (ok _) = if is_tx_done x then ok tt else err (Error.wrap m x)
with_rollback m (err x) (err e) =
    if is_tx_done x then err e else err (Error.also e "additionally, rollback failed" x)

-- What tx.Rollback returns: behind a call of tx.Commit always sql.ErrTxDone.
abbrev pub rollback_result : Bool → Result (Unit {0}) → Result (Unit {0})
rollback_result done r = if done then err Error.tx_done else r

-- The database behind it: a rolled back transaction may have used up numbers of its sequences.
abbrev pub rollback_state : {D : Type 0} → Bool → D → D → D
rollback_state done d d' = if done then d else d'

-- What is true of both is true of it.
pub rollback_state-eq :
    {D L : Type 0} (log : D → L) (done : Bool) (d d' : D)
    → log d' ≡ log d
    → log (rollback_state done d d') ≡ log d
rollback_state-eq log true d d' h = refl
rollback_state-eq log false d d' h = h

-- One statement for an error, and another one for none.
abbrev pub Leads : Type 0 → Type 0 → Result (Unit {0}) → Type 0
Leads Bad Good (err x) = Bad
Leads Bad Good (ok _) = Good

-- The same, with tx.Commit called where there is no error.
abbrev pub Ends : Type 0 → Type 0 → Result (Unit {0}) → Bool → Type 0
Ends Bad Good (err x) done = Bad
Ends Bad Good (ok _) done = (done ≡ true) × Good

module _ (Bad : Type 0) (Good : Type 0) (m : String) where
  wrapped :
      (b : Bool) (x e : Error)
      → Bad
      → Leads Bad Good (if b then err e else err (Error.also e "additionally, rollback failed" x))
  wrapped true x e h = h
  wrapped false x e h = h

  -- The deferred function turns no error into a success, and no success into an error.
  pub Ends-Leads :
      (rb r : Result (Unit {0})) (done : Bool)
      → Ends Bad Good r done
      → Leads Bad Good (with_rollback m (rollback_result done rb) r)
  unfolding is_tx_done
  Ends-Leads rb (err e) true h = h
  Ends-Leads (ok _) (err e) false h = h
  Ends-Leads (err x) (err e) false h = wrapped (is_tx_done x) x e h
  Ends-Leads rb (ok _) true h = h.1
  Ends-Leads rb (ok _) false h = absurd (let bad : false ≡ true = h.0 in cc)
