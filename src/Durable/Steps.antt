-- ===== src/Durable/Steps.antt =====
-- That every call of the adapter moves each record along the diagram of the states.
use pantheon_legion.Base.{
  text_eq, ◌+◌, ◌≡◌, refl, sym, ap, ◌∙◌, inl, inr, String, not, ◌||◌, false, Option, none, some, [],
  ◌∷◌, ◌==◌, Bool-cases, Option-cases, arith, eq_iff,
}
use mathlib.Core.Path.{subst}
use pantheon_legion.Base.Dict.{lookup, insert, lookup-insert, lookup-insert_twice}
use pantheon_legion.Base.Json.{Fields, end, field}
use pantheon_legion.Base.Text.{is_empty}
use pantheon_legion.Kernel.State.{pair_eq}
use pantheon_legion.Durable.{
  write, new_record, create, start_again, start, query, attach_payload, move, signal, cancel,
  recover, complete, fail,
}
use pantheon_legion.Durable.Records.{
  ExecutionState, state_in, ExecutionRecord, Sources, Store, Operation, with_record,
  transition_error, signal_transition, or_fail, append_signal, signal_value, same_input, running,
  paused, waiting, cancelled, completed, failed,
}
use pantheon_legion.Durable.Lifecycle.{
  ◌↝◌, break_down, finish, abandon, Moves, Moves-refl, Moves-by, Evolves, Evolves-refl,
  Evolves-insert, Evolves-same, IsKeyed, IsOpen-of, restart_of, running_of,
  transition_error-allowed, transition_error-live, is_final, signal_transition-edge,
}

module _ (w : Sources) where
  -- A write to the record that stands at `id`, which moves it.
  write-Evolves :
      (st : Store) (id : String) (old r : ExecutionRecord)
      → IsKeyed st
      → lookup id st.records ≡ some old
      → is_final old.state ≡ false
      → Moves old r
      → Evolves st (write w r st).1
  unfolding write
  write-Evolves st id old r k found live moves =
      Evolves-insert st _ old (record r { updated_at = w.now st.nows }) id found
        (record {
          execution = moves.execution;
          mission = moves.mission;
          command = moves.command;
          key = moves.key;
          created = moves.created;
          attempts = moves.attempts;
          state = moves.state;
          final = λ ended. absurd (ground (arith, live, ended));
        })
        (ap (λ i. insert i (record r { updated_at = w.now st.nows }) st.records)
          (moves.execution ∙ k.keyed id old found))

  with_record-Evolves :
      (st : Store) (id : String) (f : ExecutionRecord → Operation ExecutionRecord)
      → ((r : ExecutionRecord) → lookup id st.records ≡ some r → Evolves st (f r st).1)
      → Evolves st (with_record id f st).1
  unfolding with_record
  with_record-Evolves st id f h = elim (Option-cases (lookup id st.records)) [
    | inl missing ↦ rw (missing, with_record) (Evolves-refl st)
    | inr (r, found) ↦ rw (found, with_record) (h r found)
  ]

  query-Evolves : (st : Store) (id : String) → Evolves st (query w id st).1
  unfolding query
  query-Evolves st id = with_record-Evolves st id _ (λ r found. Evolves-refl st)

  -- An operation that fails before it writes, or writes one record that moves.
  or_fail-Evolves :
      (st : Store) (e : Option String) (m : Operation ExecutionRecord)
      → (e ≡ none → Evolves st (m st).1)
      → Evolves st (or_fail e m st).1
  or_fail-Evolves st none m h = h refl
  or_fail-Evolves st (some e) m h = Evolves-refl st

  cancel-Evolves :
      (st : Store) (id reason : String) → IsKeyed st → Evolves st (cancel w id reason st).1
  unfolding cancel
  cancel-Evolves st id reason k = with_record-Evolves st id _ (λ r found.
      elim (Bool-cases (state_in r.state (cancelled ∷ completed ∷ []))) [
        | inl ended ↦ rw ended (Evolves-refl st)
        | inr live ↦ rw live (
            write-Evolves st id r _ k found live (
              Moves-by r cancelled r.attempt r.input r.result (some reason) (omega arith)
                (abandon (IsOpen-of r.state live)) live))
      ])

  recover-Evolves : (st : Store) (id : String) → IsKeyed st → Evolves st (recover w id st).1
  unfolding recover
  recover-Evolves st id k = with_record-Evolves st id _ (λ r found.
      elim (Bool-cases (state_in r.state (cancelled ∷ completed ∷ []))) [
        | inl ended ↦ rw ended (Evolves-refl st)
        | inr live ↦ elim (Bool-cases (state_in r.state (paused ∷ waiting ∷ []))) [
          | inl rests ↦ rw (live, rests) (Evolves-refl st)
          | inr moves ↦
              rw (live, moves)
                (write-Evolves st id r _ k found live (
                  Moves-by r running (r.attempt + 1) r.input r.result r.failure (omega arith)
                    (restart_of r.state live moves) live))
        ]
      ])

  -- A write behind `_require_transition` with the one state RUNNING.
  ends-Evolves :
      (st : Store) (id : String) (r : ExecutionRecord) (s : ExecutionState)
      → (result : Option Fields) → (failure : Option String) → IsKeyed st
      → lookup id st.records ≡ some r
      → running ↝ s
      → Evolves st
          (or_fail
            (transition_error r (running ∷ []))
            (write w (record r { state = s; result = result; failure = failure }))
            st).1
  ends-Evolves st id r s result failure k found edge =
      or_fail-Evolves st (transition_error r (running ∷ [])) _ (λ passed.
        let is : r.state ≡ running =
          running_of r.state (transition_error-allowed r (running ∷ []) passed) in
        write-Evolves st id r _ k found (transition_error-live r (running ∷ []) passed) (
          Moves-by r s r.attempt r.input result failure (omega arith)
            (subst (λ t. t ↝ s) (sym is) edge) (transition_error-live r (running ∷ []) passed)))

  complete-Evolves :
      (st : Store) (id : String) (result : Fields)
      → IsKeyed st
      → Evolves st (complete w id result st).1
  unfolding complete
  complete-Evolves st id result k = with_record-Evolves st id _ (λ r found.
      elim (Bool-cases (state_in r.state (completed ∷ []))) [
        | inl done ↦ rw done (Evolves-refl st)
        | inr more ↦ rw more (ends-Evolves st id r completed (some result) r.failure k found finish)
      ])

  fail-Evolves : (st : Store) (id reason : String) → IsKeyed st → Evolves st (fail w id reason st).1
  unfolding fail
  fail-Evolves st id reason k =
      with_record-Evolves st id _
        (λ r found. ends-Evolves st id r failed r.result (some reason) k found break_down)

  -- A second write at the same id, behind one that moved the record.
  move-Evolves :
      (st : Store) (id name : String) (payload : Option Fields) (next : ExecutionState)
      → (r : ExecutionRecord) → IsKeyed st
      → lookup id st.records ≡ some r
      → r.state ↝ next
      → is_final r.state ≡ false
      → Evolves st (move w name payload next r st).1
  unfolding move attach_payload write
  move-Evolves st id name none next r k found edge live =
      write-Evolves st id r (record r { state = next }) k found live
        (Moves-by r next r.attempt r.input r.result r.failure (omega arith) edge live)
  move-Evolves st id name (some end) next r k found edge live =
      write-Evolves st id r (record r { state = next }) k found live
        (Moves-by r next r.attempt r.input r.result r.failure (omega arith) edge live)
  move-Evolves st id name (some (field j v rest)) next r k found edge live =
      elim (Option-cases (append_signal r.input (signal_value name (field j v rest)))) [
        | inl none_there ↦
            rw (none_there, attach_payload)
              (write-Evolves st id r (record r { state = next }) k found live
                (Moves-by r next r.attempt r.input r.result r.failure (omega arith) edge live))
        | inr (input, added) ↦
            rw (added, attach_payload)
              (Evolves-same st _ _
                (write-Evolves st id r (record r { state = next; input = input }) k found live
                  (Moves-by r next r.attempt input r.result r.failure (omega arith) edge live))
                (λ j. lookup-insert_twice r.execution_id j _ _ st.records))
      ]

  signal-Evolves :
      (st : Store) (id name : String) (payload : Option Fields)
      → IsKeyed st
      → Evolves st (signal w id name payload st).1
  unfolding signal
  signal-Evolves st id name payload k = with_record-Evolves st id _ (λ r found.
      elim (Option-cases (signal_transition name)) [
        | inl unknown ↦ rw unknown (Evolves-refl st)
        | inr ((allowed, next), known) ↦ rw known (
            or_fail-Evolves st (transition_error r allowed) _ (λ passed.
              move-Evolves st id name payload next r k found
                (signal_transition-edge name allowed next r.state known
                  (transition_error-allowed r allowed passed))
                (transition_error-live r allowed passed)))
      ])

  start_again-Evolves :
      (st : Store) (command_id : String) (input : Fields) (existing_id : String)
      → Evolves st (start_again w command_id input existing_id st).1
  unfolding start_again
  start_again-Evolves st command_id input existing_id =
      elim (Option-cases (lookup existing_id st.records)) [
        | inl missing ↦ rw (missing, start_again) (Evolves-refl st)
        | inr (existing, found) ↦
            rw (found, start_again)
              (elim (Bool-cases (
                not (existing.command_id == command_id) || not (same_input existing.input input))) [
                  | inl reuse ↦ rw reuse (Evolves-refl st)
                  | inr same ↦ rw same (Evolves-refl st)
                ])
      ]

  -- A new id is that of no record.
  create-Evolves :
      (st : Store) (mission_id command_id idempotency_key : String) (input : Fields)
      → lookup (w.uuid st.uuids) st.records ≡ none
      → Evolves st (create w mission_id command_id idempotency_key input st).1
  unfolding create new_record
  create-Evolves st mission_id command_id idempotency_key input fresh = record {
    evolves = λ id r found. (
      r,
      ground (
        arith,
        fresh,
        found,
        eq_iff (w.uuid st.uuids) id,
        lookup-insert (w.uuid st.uuids) id
            (new_record w mission_id command_id idempotency_key input st) st.records,
      ),
      Moves-refl r,
    );
  }

  start-Evolves :
      (st : Store) (mission_id command_id idempotency_key : String) (input : Fields)
      → lookup (w.uuid st.uuids) st.records ≡ none
      → Evolves st (start w mission_id command_id idempotency_key input st).1
  unfolding start
  start-Evolves st mission_id command_id idempotency_key input fresh =
      elim (Option-cases (lookup (mission_id, idempotency_key) st.by_idempotency)) [
        | inl new ↦
            rw (new, start) (create-Evolves st mission_id command_id idempotency_key input fresh)
        | inr (id, known) ↦
            rw (known, start)
              (elim (Bool-cases (is_empty id)) [
                | inl no_id ↦
                    rw no_id (create-Evolves st mission_id command_id idempotency_key input fresh)
                | inr has_id ↦ rw has_id (start_again-Evolves st command_id input id)
              ])
      ]

-- A call of the adapter
pub data Call : Type 0 where
  start_call : (mission_id command_id idempotency_key : String) → Fields → Call
  query_call : String → Call
  signal_call : (execution_id name : String) → Option Fields → Call
  cancel_call : (execution_id reason : String) → Call
  recover_call : String → Call
  complete_call : (execution_id : String) → Fields → Call
  fail_call : (execution_id reason : String) → Call

-- The store that a call leaves
unfoldable pub after : Sources → Call → Store → Store
after w (start_call mission_id command_id key input) st =
    (start w mission_id command_id key input st).1
after w (query_call id) st = (query w id st).1
after w (signal_call id name payload) st = (signal w id name payload st).1
after w (cancel_call id reason) st = (cancel w id reason st).1
after w (recover_call id) st = (recover w id st).1
after w (complete_call id result) st = (complete w id result st).1
after w (fail_call id reason) st = (fail w id reason st).1

-- In a store that keeps each record under its own id, and with a next uuid that is no record's id,
-- every call keeps every record that was there. It leaves the record's ids, key and time of
-- creation as they were, takes no attempt back, moves its state along the diagram, and does not
-- change a record whose state is CANCELLED or COMPLETED at all.
pub after-Evolves :
    (w : Sources) (c : Call) (st : Store)
    → IsKeyed st
    → lookup (w.uuid st.uuids) st.records ≡ none
    → Evolves st (after w c st)
unfolding after
after-Evolves w (start_call mission_id command_id key input) st k fresh =
    start-Evolves w st mission_id command_id key input fresh
after-Evolves w (query_call id) st k fresh = query-Evolves w st id
after-Evolves w (signal_call id name payload) st k fresh = signal-Evolves w st id name payload k
after-Evolves w (cancel_call id reason) st k fresh = cancel-Evolves w st id reason k
after-Evolves w (recover_call id) st k fresh = recover-Evolves w st id k
after-Evolves w (complete_call id result) st k fresh = complete-Evolves w st id result k
after-Evolves w (fail_call id reason) st k fresh = fail-Evolves w st id reason k
