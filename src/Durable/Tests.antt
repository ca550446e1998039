-- ===== src/Durable/Tests.antt =====
-- A concrete store of the durable adapter, and the theorems at it.
use pantheon_legion.Base.{
  text_eq, ◌≡◌, refl, ap, sym, ◌∙◌, inl, inr, none, [], ◌∷◌, ◌==◌, arith, Bool-cases, eq_iff,
}
use pantheon_legion.Base.Dict.{lookup, insert}
use pantheon_legion.Base.Json.{Fields, end, field, str}
use pantheon_legion.Base.Text.{show}
use pantheon_legion.Kernel.State.{pair_eq}
use pantheon_legion.Durable.{create, new_record, start}
use pantheon_legion.Durable.Records.{ExecutionRecord, Sources, Store, running, returned}
use pantheon_legion.Durable.Lifecycle.{IsKeyed, Evolves}
use pantheon_legion.Durable.Steps.{cancel_call, after, after-Evolves}
use pantheon_legion.Durable.Reuse.{start-replay}
use pantheon_legion.Durable.Snapshot.{snapshot, restore, restore-snapshot}

abbrev sources : Sources
sources = record { uuid = show; now = λ n. "2026-01-01T00:00:00Z" }

abbrev job_input : Fields
job_input = field "goal" (str "deploy") end

abbrev fresh_store : Store
fresh_store = record { records = []; by_idempotency = []; uuids = 0; nows = 0 }

abbrev job : ExecutionRecord
job = record {
  execution_id = "0";
  mission_id = "m1";
  command_id = "c1";
  idempotency_key = "k1";
  state = running;
  attempt = 1;
  input = job_input;
  created_at = "2026-01-01T00:00:00Z";
  updated_at = "2026-01-01T00:00:00Z";
  result = none;
  failure = none;
}

abbrev job_store : Store
job_store = record {
  records = ("0", job) ∷ [];
  by_idempotency = (("m1", "k1"), "0") ∷ [];
  uuids = 1;
  nows = 1;
}

start_runs : start sources "m1" "c1" "k1" job_input fresh_store ≡ (returned job, job_store)
unfolding start create new_record lookup insert show
start_runs = refl

job_store-IsKeyed : IsKeyed job_store
unfolding lookup
job_store-IsKeyed = record {
  keyed = λ id r found. elim (Bool-cases ("0" == id)) [
    | inl same ↦
        let is : job ≡ r = ground (arith, rw same at found) in
        ap (λ (x : ExecutionRecord). x.execution_id) (sym is) ∙ (eq_iff "0" id).0 same
    | inr other ↦ absurd (ground (arith, rw other at found))
  ];
}

next_unused : lookup (show 1) job_store.records ≡ none
unfolding lookup show
next_unused = refl

after-Evolves_example : Evolves job_store (after sources (cancel_call "0" "stop") job_store)
after-Evolves_example =
    after-Evolves sources (cancel_call "0" "stop") job_store job_store-IsKeyed next_unused

start-replay_example : start sources "m1" "c1" "k1" job_input job_store ≡ (returned job, job_store)
unfolding show
start-replay_example =
    start-replay sources "m1" "c1" "k1" job_input fresh_store job job_store refl start_runs

restore-snapshot_example :
    restore (snapshot job_store) ≡ returned (job_store.records, job_store.by_idempotency)
unfolding lookup
restore-snapshot_example = restore-snapshot job_store (refl, tt) (refl, tt) (refl, tt)
