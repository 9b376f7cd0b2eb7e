-- ===== src/Memstore/Concurrency.antt =====
-- Optimistic concurrency (es/memstore/eventstore.go, Commit): versions of a stream run without
-- gaps, and of two writers that saw one version only the first gets through.
use go_es_light.Base.{
  ℕ, suc, ◌+◌, ◌≡◌, refl, ap, true, false, List, [], ◌∷◌, ◌++◌, ◌==◌, nat_eq, ◌∙◌, inl, inr, length,
  length-append, filter, filter-append, filter-All, filter_none, All, arith, Bool-cases, eq_of_beq,
  beq_self, map, Bool, Result, ok, err, Error, sym, append-nil, ◌≢◌,
}
use mathlib.Core.Path.{subst, ap₂}
use native.Mathlib.Nat.{zero-add}
use go_es_light.Event.{DomainEvent}
use go_es_light.StoreConfig.{StoreOption, resolve_store_config}
use go_es_light.Memstore.{
  Store, AggregateKey, key_of, key_beq, key_beq_iff, key_eq, commit, stamp, stamp_event,
  last_version,
}
use go_es_light.Memstore.Invariant.{IsValid, in_stream}
use go_es_light.Memstore.Log.{numbered_from, version_of, log_commit, IsBatch}
use go_es_light.Memstore.Commit.{Fits, commit-refines-log}

-- The events have the versions n + 1, n + 2, and so on.
abbrev pub Versioned : ℕ → List DomainEvent → Type 0
Versioned n [] = Unit
Versioned n (e ∷ es) = (e.aggregate_version ≡ n + 1) × Versioned (n + 1) es

pub Versioned-append :
    (n : ℕ) (xs ys : List DomainEvent)
    → Versioned n xs
    → Versioned (n + length xs) ys
    → Versioned n (xs ++ ys)
Versioned-append n [] ys hx hy = let e : n + 0 ≡ n = omega arith in rw e at hy
Versioned-append n (x ∷ xs) ys hx hy =
    let e : n + suc (length xs) ≡ n + 1 + length xs = omega arith in
    (hx.0, Versioned-append (n + 1) xs ys hx.1 (rw e at hy))

Versioned-numbered :
    (n m : ℕ) (es : List DomainEvent) → Versioned n es → Versioned n (numbered_from m es)
Versioned-numbered n m [] h = tt
Versioned-numbered n m (e ∷ es) h = (h.0, Versioned-numbered (n + 1) (m + 1) es h.1)

pub last_version-Versioned :
    (n : ℕ) (e : DomainEvent) (es : List DomainEvent)
    → Versioned n (e ∷ es)
    → last_version (e ∷ es) ≡ n + length (e ∷ es)
last_version-Versioned n e [] h = omega arith
last_version-Versioned n e (x ∷ es) h = omega (arith, last_version-Versioned (n + 1) x es h.1)

last_version-Versioned_zero : (es : List DomainEvent) → Versioned 0 es → last_version es ≡ length es
last_version-Versioned_zero [] h = refl
last_version-Versioned_zero (e ∷ es) h = omega (arith, last_version-Versioned 0 e es h)

All-numbered :
    (k : AggregateKey) (b : Bool) (n : ℕ) (es : List DomainEvent)
    → All (λ e. in_stream k e ≡ b) es
    → All (λ e. in_stream k e ≡ b) (numbered_from n es)
All-numbered k b n [] h = tt
All-numbered k b n (e ∷ es) h = (h.0, All-numbered k b (n + 1) es h.1)

length-numbered : (n : ℕ) (es : List DomainEvent) → length (numbered_from n es) ≡ length es
length-numbered n [] = refl
length-numbered n (e ∷ es) = ap suc (length-numbered (n + 1) es)

in_stream_batch :
    (k : AggregateKey) (e : DomainEvent) (es : List DomainEvent)
    → All (λ x. key_of x ≡ key_of e) es
    → All (λ x. in_stream k x ≡ in_stream k e) es
in_stream_batch k e [] h = tt
in_stream_batch k e (x ∷ es) h = (ap (λ j. key_beq j k) h.0, in_stream_batch k e es h.1)

-- Every stream of the log has the versions 1, 2, and so on.
abbrev pub IsVersioned : List DomainEvent → Type 0
IsVersioned log = (k : AggregateKey) → Versioned 0 (filter (in_stream k) log)

-- A batch lies in the stream of its first event, and in no other.
pub batch_flags :
    (k : AggregateKey) (b : Bool) (n : ℕ) (e : DomainEvent) (es : List DomainEvent)
    → IsBatch (e ∷ es)
    → in_stream k e ≡ b
    → All (λ x. in_stream k x ≡ b) (numbered_from n (e ∷ es))
batch_flags k b n e es batch h =
    All-numbered k b n (e ∷ es) (h, rw h at (in_stream_batch k e es batch))

append-IsVersioned :
    (log : List DomainEvent) (e : DomainEvent) (es : List DomainEvent) (n : ℕ)
    → IsVersioned log
    → IsBatch (e ∷ es)
    → Versioned (version_of (key_of e) log) (e ∷ es)
    → IsVersioned (log ++ numbered_from n (e ∷ es))
append-IsVersioned log e es n h batch next k =
    let new = numbered_from n (e ∷ es) in
    let split = filter-append (in_stream k) log new in
    elim (Bool-cases (in_stream k e)) [
      | inl here ↦
          let whole = filter-All (in_stream k) new (batch_flags k true n e es batch here) in
          let key : key_of e ≡ k = (key_beq_iff (key_of e) k).0 here in
          let start : length (filter (in_stream k) log) ≡ version_of (key_of e) log =
            rw key (sym (last_version-Versioned_zero (filter (in_stream k) log) (h k))) in
          subst (Versioned 0) (sym (split ∙ ap (λ l. filter (in_stream k) log ++ l) whole)) (
            Versioned-append 0 (filter (in_stream k) log) new (h k) (
              rw (zero-add, start)
                (Versioned-numbered (version_of (key_of e) log) n (e ∷ es) next)))
      | inr there ↦
          let gone = filter_none (in_stream k) new (batch_flags k false n e es batch there) in
          subst (Versioned 0)
            (sym (
              split
              ∙ ap (λ l. filter (in_stream k) log ++ l) gone
              ∙ append-nil (filter (in_stream k) log)))
            (h k)
    ]

log_commit-IsVersioned :
    (events : List DomainEvent) (expected : ℕ) (log : List DomainEvent)
    → IsVersioned log
    → IsBatch events
    → Versioned expected events
    → IsVersioned (log_commit events expected log).1
log_commit-IsVersioned [] expected log h batch next = h
log_commit-IsVersioned (e ∷ es) expected log h batch next =
    elim (Bool-cases (version_of (key_of e) log == expected)) [
      | inl same ↦ rw same (
          append-IsVersioned log e es (length log) h batch
            (rw (eq_of_beq (version_of (key_of e) log) expected same) next))
      | inr other ↦ rw other h
    ]

-- If every stream of a valid store has the versions 1, 2, ..., it still has after a commit,
-- successful or not, of a batch of one stream whose versions follow the expected one and whose
-- GlobalIDs fit 64 bits.
pub commit-IsVersioned :
    (events : List DomainEvent) (expected : ℕ) (opts : List StoreOption) (s : Store)
    → IsValid s
    → Fits (stamp (resolve_store_config opts) events) s
    → IsVersioned s.all
    → Versioned expected (stamp (resolve_store_config opts) events)
    → IsVersioned (commit events expected opts s).store.all
commit-IsVersioned events expected opts s v fits h next =
    let batch = stamp (resolve_store_config opts) events in
    let same = (commit-refines-log events expected opts s v fits).0 in
    rw (ap (λ (r : Result (Unit {0}) × List DomainEvent). r.1) same)
      (log_commit-IsVersioned batch expected s.all h fits.batch next)

length-stream :
    (log : List DomainEvent) (e : DomainEvent) (es : List DomainEvent) (n : ℕ)
    → IsVersioned log
    → IsBatch (e ∷ es)
    → length (filter (in_stream (key_of e)) (log ++ numbered_from n (e ∷ es)))
      ≡ version_of (key_of e) log + length (e ∷ es)
length-stream log e es n h batch =
    let k = key_of e in
    let new = numbered_from n (e ∷ es) in
    let whole = filter-All (in_stream k) new (batch_flags k true n e es batch (beq_self k)) in
    ap length (filter-append (in_stream k) log new ∙ ap (λ l. filter (in_stream k) log ++ l) whole)
    ∙ length-append (filter (in_stream k) log) new
    ∙ ap₂ ◌+◌ (sym (last_version-Versioned_zero (filter (in_stream k) log) (h k)))
        (length-numbered n (e ∷ es))

version-log_commit :
    (e : DomainEvent) (es : List DomainEvent) (expected : ℕ) (log : List DomainEvent)
    → IsVersioned log
    → IsBatch (e ∷ es)
    → Versioned expected (e ∷ es)
    → (log_commit (e ∷ es) expected log).0 ≡ ok tt
    → version_of (key_of e) (log_commit (e ∷ es) expected log).1 ≡ expected + length (e ∷ es)
version-log_commit e es expected log h batch next done =
    let same : version_of (key_of e) log ≡ expected = ground arith in
    let grown = log ++ numbered_from (length log) (e ∷ es) in
    rw (same, beq_self expected)
      (last_version-Versioned_zero (filter (in_stream (key_of e)) grown)
          (append-IsVersioned log e es (length log) h batch (rw same next) (key_of e))
        ∙ length-stream log e es (length log) h batch
        ∙ ap (λ v. v + length (e ∷ es)) same)

log_commit-stale :
    (e : DomainEvent) (es : List DomainEvent) (expected : ℕ) (log : List DomainEvent)
    → version_of (key_of e) log ≢ expected
    → (log_commit (e ∷ es) expected log).0 ≡ err Error.concurrency_conflict
log_commit-stale e es expected log h = ground arith

-- Of two writers to one stream that expect the same version, the second is refused once the first
-- has committed: no update is lost. The store is valid and every stream in it has the versions 1,
-- 2, and so on; each batch lies in one stream and its GlobalIDs fit 64 bits; the first batch has
-- the versions after the expected one.
pub second-commit-conflicts :
    (e x : DomainEvent) (es xs : List DomainEvent) (expected : ℕ) (opts : List StoreOption)
    (s : Store)
    → IsValid s
    → IsVersioned s.all
    → Fits (stamp (resolve_store_config opts) (e ∷ es)) s
    → Fits (stamp (resolve_store_config opts) (x ∷ xs)) (commit (e ∷ es) expected opts s).store
    → Versioned expected (stamp (resolve_store_config opts) (e ∷ es))
    → key_of (stamp_event (resolve_store_config opts).tenant_id x)
      ≡ key_of (stamp_event (resolve_store_config opts).tenant_id e)
    → (commit (e ∷ es) expected opts s).result ≡ ok tt
    → (commit (x ∷ xs) expected opts (commit (e ∷ es) expected opts s).store).result
      ≡ err Error.concurrency_conflict
second-commit-conflicts e x es xs expected opts s v h fits fits' next same done =
    let stamped = stamp_event (resolve_store_config opts).tenant_id in
    let s' = (commit (e ∷ es) expected opts s).store in
    let first = commit-refines-log (e ∷ es) expected opts s v fits in
    let second = commit-refines-log (x ∷ xs) expected opts s' first.1 fits' in
    let grown : s'.all
        ≡ (log_commit (stamp (resolve_store_config opts) (e ∷ es)) expected s.all).1 =
      ap (λ (r : Result (Unit {0}) × List DomainEvent). r.1) first.0 in
    let version =
      version-log_commit (stamped e) (map stamped es) expected s.all h fits.batch next
        (sym (ap (λ (r : Result (Unit {0}) × List DomainEvent). r.0) first.0) ∙ done) in
    let ahead : version_of (key_of (stamped x)) s'.all ≡ expected + suc (length (map stamped es)) =
      rw (same, grown) version in
    ap (λ (r : Result (Unit {0}) × List DomainEvent). r.0) second.0
    ∙ log_commit-stale (stamped x) (map stamped xs) expected s'.all (omega (arith, ahead))
