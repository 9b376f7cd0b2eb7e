-- ===== src/Lib.antt =====
-- A model of go-es-light, an event-sourcing library in Go, with the theorems that make it correct.
--
-- The parts and how they interact. An aggregate records events (es/aggregate.go); a repository
-- (es/repository.go) commits its buffer to an event store and replays a stream into an aggregate; an
-- event store (es/store.go is the interface, es/memstore/eventstore.go the in-memory implementation)
-- checks the expected version and numbers the events; a tenant-scoped store (es/tenant_store.go)
-- wraps another store; a dispatcher (es/dispatcher.go) runs projectors and starts reactors for an
-- event; a notifier (es/notifier.go) lets a reader wait until the read side has reached a version.
-- Personal data is encrypted with one key for each subject: key rings (es/pii.go,
-- es/memstore/keyring.go, es/wrapped_keyring.go) hold these keys, and an erasure ledger
-- (es/erasure_ledger.go, es/memstore/erasure_ledger.go) chains what was erased. An anonymizer
-- (es/pii.go) seals and opens the personal fields of an event with the key of its subject, and a store
-- (es/pii_store.go) around another one seals what it commits, opens what it reads, and forgets the key
-- of a subject whose erasure was committed. A verifier (es/erasure_ledger.go) ties the ledger, the keys
-- and the events together. Account (examples/ledger/domain) and User (examples/user/domain) are
-- aggregates, UserService (examples/user/app) runs commands on users through a repository, and a
-- projector keeps a read model of them. A subject's data is exported by es/pii_lookup.go and es/dsar.go.
-- es/pgstore implements the event store, the key ring and the erasure ledger over PostgreSQL.
--
-- Which file models what:
--   Base           tests, lists, maps, machine words, results, big-endian numbers
--   Int            Go's int as an integer
--   Event          DomainEvent and CheckPiiOpen
--   StoreConfig    WithTenant, WithAllTenants, ResolveStoreConfig, the interface EventStore
--   Memstore       Store.Commit, Load, FetchAfter, FetchByPiiID, Get and Save: commit, load,
--                  fetch_after, fetch_by_pii_id, get, save; Memstore.Stream is StreamAll
--   Subject        SubjectExporter.Export and ExportJSON: export, export_json
--   Json           what the code asks of encoding/json, as parameters
--   Aggregate      RecordThat, the RecordOptions, the registry, LoadFromHistory: record_that,
--                  with_..., register, factory, load_from_history
--   Repository     Repository.Load and Save: load, save
--   TenantStore    TenantScopedStore: tenant_scoped
--   Dispatcher     patternMatches, GetListenersForEvent, Dispatch
--   Notifier       Subscribe and Notify of EventNotifier
--   ErasureLedger  ShredRecordHash, CheckShredChain, Append
--   ErasureVerifier
--                  ErasureVerifier.Verify: verify
--   KeyRing        the interface KeyRing and the in-memory ring
--   WrappedKeyRing Get, Put, Forget, Rotate, the framing of a wrapped key, and AesGcmWrapper
--   Pii            PiiAnonymizer.Seal, Open and Forget: seal, open_event, forget
--   PiiStore       PiiEventStore: commit, load, fetch_after, fetch_by_pii_id
--   Pgstore        es/pgstore over a database that is a parameter: Queries has the statements and
--                  their arguments, Rows is scanEvents, Database the reads and checkpoints, Transaction
--                  is Store.Commit, Polling the drains of StreamAll, Keys is KeyRing, Shreds is
--                  ErasureLedger; Migration is Store.Migrate; Advisory is AdvisoryLock, with the
--                  calls of the replicas as steps
--   Account        the Account aggregate of examples/ledger/domain
--   User           the User aggregate of examples/user/domain, and UserService of examples/user/app
--   ReadModel      Store and UserProjector of examples/user/adapters/readmodel: upsert, get, handle
--   Examples       tests, and the theorems at concrete inputs
--
-- How the code is modelled. A method that holds a lock is one step: a function from the state to
-- the results and the state that it leaves. An error is a value of Error, which keeps the sentinel
-- errors and the texts but not the identifiers formatted into them. A Go map is an association list;
-- the code does not depend on its order. A UUID is its 128-bit number, a time the nanoseconds since
-- year 1, a string its bytes, an int64 amount its two's complement. A uint64 is a number below 2 ^ 64,
-- and its increments and differences wrap around. Events are stored by value: the store and its
-- caller share pointers in the code, and the model gives back to the caller the events that Commit
-- wrote to. Loops are structural recursion, so no fuel is needed. Contexts, and with them
-- cancellation, are modelled for StreamAll only. There a Commit is a sequence of steps, for each event
-- one that appends it and one for each channel that it is sent to, which the steps of the stream's
-- goroutine and of other subscribers interleave with. An unwrapped key that is empty is a key, where
-- Go may have nil for it, which is none.
--
-- Parameters: encoding/json (Json.Json, Json.Codec), SHA-256, AES-GCM and base64 (Pii.Aead), the key
-- wrapper, what is drawn from crypto/rand, the clock and uuid.New. What a theorem needs of them is a
-- hypothesis of it.
--
-- The database of es/pgstore is a parameter, Pgstore.Database: it gets the text of a statement and its
-- arguments. A text that spans lines in the code has one space for each run of white space. What the
-- theorems need of PostgreSQL are laws that a record names: IsTable, Answers, IsShredTable,
-- AreExclusive. They are about statements that succeed; any may fail, a COMMIT also with its answer lost.
-- What a transaction does to the database before its end, as to a sequence, shows behind its Commit or
-- Rollback. Each call of FetchAfter in the drains of StreamAll finds the database as it is then. A drain
-- runs on fuel, and one round more than the log gets events is enough. A call of TryAcquire or Release is one step, although it sends several statements.
--
-- Not modelled: StreamAll of PiiEventStore; the advisory lock of memstore; of
-- es/pgstore the listener, the roles and the migrations of the key ring and the ledger; the notifier of
-- the user example and the programs of the examples.
pub mod Base
pub mod Int
pub mod Event
pub mod StoreConfig
pub mod Memstore
pub mod Json
pub mod Aggregate
pub mod Repository
pub mod Pgstore
pub mod Subject
pub mod TenantStore
pub mod Dispatcher
pub mod Notifier
pub mod ErasureLedger
pub mod KeyRing
pub mod WrappedKeyRing
pub mod Pii
pub mod PiiStore
pub mod Account
pub mod User
pub mod ErasureVerifier
pub mod ReadModel
mod Examples
