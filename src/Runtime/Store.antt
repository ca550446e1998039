-- ===== src/Runtime/Store.antt =====
-- The tables of src/legion_runtime/database.py, what the runtime takes from outside, and actions
-- on the tables with an error as a value; `transaction` is that of postgres.py.
use pantheon_legion.Base.{
  ℕ, ◌+◌, String, Bool, Option, none, some, List, [], ◌∷◌, if◌then◌else◌, ◌||◌,
}
use pantheon_legion.Base.Dict.{Dict}
use pantheon_legion.Base.Json.{Value}
use pantheon_legion.Base.Lists.{any}
use pantheon_legion.Base.Text.{is_empty, strip}
use pantheon_legion.Runtime.Agent.{
  AgentIdentity, MissionAssignment, CoordinationCheckpoint, AgentRuntimeBinding, RuntimeEvent,
}
use pantheon_legion.Runtime.Work.{WorkItem, WorkAttempt, WorkResult, WorkEvidenceReference}

-- `new_id n` is the n-th text of `id_factory` and `now n` the n-th reading of `clock`. The digests
-- are sha256 of a document as `_fingerprint` and as `result_digest` print it; `encoded` is the
-- number of bytes in which an event's data is printed.
pub record Ports : Type 0 where
  pub new_id : ℕ → String
  pub now : ℕ → String
  pub sha256_json : Value → String
  pub sha256_text : Value → String
  pub encoded : Value → ℕ

-- `IdempotencyRecord`
pub record IdempotencyRecord : Type 0 where
  pub scope : String
  pub operation : String
  pub idempotency_key : String
  pub fingerprint : String
  pub resource_type : String
  pub resource_id : String

-- A table whose rows change is a dict by its primary key; the others only grow.
pub record Tables : Type 0 where
  pub agents : Dict String AgentIdentity
  pub assignments : Dict String MissionAssignment
  pub checkpoints : Dict String CoordinationCheckpoint
  pub bindings : Dict String AgentRuntimeBinding
  pub work_items : Dict String WorkItem
  pub work_attempts : Dict String WorkAttempt
  pub work_results : List WorkResult
  pub evidence_references : List WorkEvidenceReference
  pub events : List RuntimeEvent
  pub idempotency : List IdempotencyRecord
  pub ids : ℕ
  pub clocks : ℕ

abbrev pub no_rows : Tables
no_rows = record {
  agents = [];
  assignments = [];
  checkpoints = [];
  bindings = [];
  work_items = [];
  work_attempts = [];
  work_results = [];
  evidence_references = [];
  events = [];
  idempotency = [];
  ids = 0;
  clocks = 0;
}

-- `RuntimeOperationError`, `ValueError` and `TypeError` of a constructor, `AgentStoreConflict`,
-- `DuplicateRuntimeEvent`, and an `IntegrityError` that nothing catches.
pub data Failure : Type 0 where
  operation_error invalid_value store_conflict duplicate_event : String → Failure
  integrity_error : Failure

pub data Reply {ℓ} (A : Type ℓ) : Type ℓ where
  done : A → Reply A
  failed : Failure → Reply A

abbrev pub Session : Type 0 → Type 0
Session A = Tables → Reply A × Tables

module _ {A : Type 0} where
  abbrev pub give : A → Session A
  give a s = (done a, s)

  abbrev pub refuse : Failure → Session A
  refuse e s = (failed e, s)

  abbrev pub reads : (Tables → A) → Session A
  reads f s = (done (f s), s)

  abbrev pub need : Option A → Failure → Session A
  need none e = refuse e
  need (some a) e = give a

  abbrev pub accept : Option String → A → Session A
  accept none a = give a
  accept (some fault) a = refuse (invalid_value fault)

  -- The value, unless its constructor refuses it.
  abbrev pub checked : (A → Option String) → A → Session A
  checked fault a = accept (fault a) a

module _ {A B : Type 0} where
  abbrev pub follow : Reply A → (A → Session B) → Session B
  follow (done a) f s = f a s
  follow (failed e) f s = (failed e, s)

  infixl 5 ◌>>=◌ ◌>>◌
  unfoldable pub ◌>>=◌ : Session A → (A → Session B) → Session B
  ◌>>=◌ m f s = let (r, s') = m s in follow r f s'

  abbrev pub ◌>>◌ : Session A → Session B → Session B
  m >> n = m >>= λ _. n

-- `if passed: raise`
abbrev pub guard : Bool → Failure → Session (Unit {0})
guard passed e = if passed then give tt else refuse e

-- What a failed transaction leaves: the rows from before; identifiers and times stay drawn.
abbrev pub rolled_back : Tables → Tables → Tables
rolled_back s s' = record s { ids = s'.ids; clocks = s'.clocks }

abbrev pub settle {ℓ} : {A : Type ℓ} → Tables → Reply A → Tables → Reply A × Tables
settle s (done a) s' = (done a, s')
settle s (failed e) s' = (failed e, rolled_back s s')

-- `with repository.transaction(lock_keys=keys)`. The locks make the body one step of any
-- interleaving with transactions that share a key. A transaction inside another, which only takes
-- further locks, does not occur in the operations.
unfoldable pub transaction : {A : Type 0} → List String → Session A → Session A
transaction [] body s = (failed (invalid_value "transaction requires non-empty lock keys"), s)
transaction (key ∷ keys) body s =
    if is_empty (strip key) || any (λ k. is_empty (strip k)) keys
    then (failed (invalid_value "transaction requires non-empty lock keys"), s)
    else (let (r, s') = body s in settle s r s')

module _ (p : Ports) where
  -- `self.id_factory()`
  unfoldable pub draw_id : Session String
  draw_id s = (done (p.new_id s.ids), record s { ids = s.ids + 1 })

  -- `self.clock()`
  unfoldable pub read_clock : Session String
  read_clock s = (done (p.now s.clocks), record s { clocks = s.clocks + 1 })
