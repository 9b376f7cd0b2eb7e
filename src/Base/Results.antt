-- ===== src/Base/Results.antt =====
-- Go's `(value, error)` results, and byte strings.
use Prim.Native.Nat.{ℕ}
use Prim.Native.Char.{code}
use Prim.Native.String.{String}
use mathlib.Core.Path.{◌≡◌, refl}
use mathlib.Core.Logic.{◌⊎◌, inl, inr}
use mathlib.Core.Bool.{Bool, true, false}
use mathlib.Core.List.{List, [], ◌∷◌}

-- A Go string or []byte: its bytes. A nil slice is the empty list.
abbrev pub Bytes : Type 0
Bytes = List ℕ

-- The bytes of an ASCII literal.
abbrev pub bytes : String → Bytes
bytes String.[] = []
bytes (String.◌∷◌ c s) = code c ∷ bytes s

-- The sentinel errors of package es, an error of an application, and `fmt.Errorf("...: %w", err)`;
-- those of database/sql, and `fmt.Errorf("%w (additionally, ...: %v)", err, other)`.
pub data Error : Type 0 where
  concurrency_conflict : Error
  aggregate_not_found : Error
  subject_not_found : Error
  pii_lookup_unsupported : Error
  pii_unrecoverable : Error
  no_erasure_record : Error
  no_key_lister : Error
  text : String → Error
  at_index : String → ℕ → Error
  wrap : String → Error → Error
  no_rows : Error
  tx_done : Error
  also : Error → String → Error → Error

-- errors.Is(err, ErrAggregateNotFound)
unfoldable pub is_aggregate_not_found : Error → Bool
is_aggregate_not_found Error.aggregate_not_found = true
is_aggregate_not_found (Error.wrap m e) = is_aggregate_not_found e
is_aggregate_not_found (Error.also e m x) = is_aggregate_not_found e
is_aggregate_not_found _ = false

-- errors.Is(err, ErrSubjectNotFound)
unfoldable pub is_subject_not_found : Error → Bool
is_subject_not_found Error.subject_not_found = true
is_subject_not_found (Error.wrap m e) = is_subject_not_found e
is_subject_not_found (Error.also e m x) = is_subject_not_found e
is_subject_not_found _ = false

-- errors.Is(err, sql.ErrNoRows) and errors.Is(err, sql.ErrTxDone)
unfoldable pub is_no_rows : Error → Bool
is_no_rows Error.no_rows = true
is_no_rows (Error.wrap m e) = is_no_rows e
is_no_rows (Error.also e m x) = is_no_rows e
is_no_rows _ = false

unfoldable pub is_tx_done : Error → Bool
is_tx_done Error.tx_done = true
is_tx_done (Error.wrap m e) = is_tx_done e
is_tx_done (Error.also e m x) = is_tx_done e
is_tx_done _ = false

pub data Result {ℓ} (A : Type ℓ) : Type ℓ where
  err : Error → Result A
  ok : A → Result A

-- `if err != nil { return err }`: go on with the value, or pass the error on.
infixl 5 ◌>>=◌
abbrev pub ◌>>=◌ {ℓ κ} : {V : Type ℓ} {W : Type κ} → Result V → (V → Result W) → Result W
err x >>= next = err x
ok v >>= next = next v

-- `if err != nil { return fmt.Errorf("msg: %w", err) }`
abbrev pub context {ℓ} : {A : Type ℓ} → String → Result A → Result A
context m (ok a) = ok a
context m (err e) = err (Error.wrap m e)

pub >>=-eq-ok {ℓ κ} :
    {V : Type ℓ} {W : Type κ} (r : Result V) (next : V → Result W) {w : W}
    → (r >>= next) ≡ ok w
    → (v : V) × (r ≡ ok v) × (next v ≡ ok w)
>>=-eq-ok (err x) next h = cc
>>=-eq-ok (ok v) next h = (v, refl, h)

pub ok-injective {ℓ} : {A : Type ℓ} {a b : A} → ok a ≡ ok b → a ≡ b
ok-injective h = cc

pub Result-cases : (r : Result (Unit {0})) → (r ≡ ok tt) ⊎ ((x : Error) × (r ≡ err x))
Result-cases (ok _) = inl refl
Result-cases (err x) = inr (x, refl)
