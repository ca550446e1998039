-- ===== src/Runtime/Stable/Writes.antt =====
-- The writes of the repository, draws and transactions keep every stable predicate.
use pantheon_legion.Base.{
  text_eq, ℕ, ◌+◌, ◌≡◌, refl, String, Bool, true, false, ◌||◌, Option, none, some, List, [], ◌∷◌,
  inl, inr, Bool-cases, arith, eqb, eqb_iff,
}
use pantheon_legion.Base.Lists.{any}
use pantheon_legion.Base.Text.{is_empty, strip}
use pantheon_legion.Runtime.Checks.{is_given}
use pantheon_legion.Runtime.Agent.{
  AgentIdentity, MissionAssignment, CoordinationCheckpoint, AgentRuntimeBinding, RuntimeEvent,
}
use pantheon_legion.Runtime.Work.{WorkItem, WorkAttempt, WorkResult, WorkEvidenceReference}
use pantheon_legion.Runtime.Store.{
  Ports, IdempotencyRecord, Tables, Failure, Reply, done, failed, Session, transaction, settle,
  draw_id, read_clock,
}
use pantheon_legion.Runtime.Repository.{
  insert_row, update_row, in_version, item_matches, save_agent, save_assignment, save_checkpoint,
  save_binding, save_work_item, save_work_attempt, save_work_result, attempt_clash, result_clash,
  save_work_evidence_reference, store_event, put_idempotency, next_event_sequence,
}
use pantheon_legion.Runtime.Stable.{
  Stable, Keeps, IsNext, assignment_version, checkpoint_revision, binding_version, item_version,
  attempt_version,
}

-- The ends of an insert and of an update.
module _ (P : Tables → Type 0) where
  insert_row-kept :
      (clash : Bool) (e : Failure) (s' s : Tables)
      → P s
      → (clash ≡ false → P s')
      → P (insert_row clash e s' s).1
  insert_row-kept true e s' s h g = h
  insert_row-kept false e s' s h g = g refl

  update_row-kept :
      (matches broken : Bool) (code : String) (s' s : Tables)
      → P s
      → (matches ≡ true → broken ≡ false → P s')
      → P (update_row matches broken code s' s).1
  update_row-kept false broken code s' s h g = h
  update_row-kept true true code s' s h g = h
  update_row-kept true false code s' s h g = g refl refl

module _ {ℓ} {A : Type ℓ} where
  absent : (o : Option A) → is_given o ≡ false → o ≡ none
  absent none e = refl
  absent (some a) e = absurd (ground (arith, e))

  in_version-IsNext :
      (version : A → ℕ) (expected : ℕ) (new : A) (old : Option A)
      → version new ≡ expected + 1
      → in_version version expected old ≡ true
      → IsNext version new old
  in_version-IsNext version expected new none next e = inl refl
  in_version-IsNext version expected new (some b) next e =
      let same : version b ≡ expected = (eqb_iff (version b) expected).0 e in
      inr (b, refl, omega (arith, next, same))

item_matches-IsNext :
    (expected : ℕ) (new : WorkItem) (old : Option WorkItem)
    → new.version ≡ expected + 1
    → item_matches expected new old ≡ true
    → IsNext item_version new old
unfolding item_matches
item_matches-IsNext expected new none next e = inl refl
item_matches-IsNext expected new (some b) next e =
    let same : b.version ≡ expected = ground (arith, e, eqb_iff b.version expected) in
    inr (b, refl, omega (arith, next, same))

module _ {P : Tables → Type 0} (S : Stable P) where
  pub draw_id-Keeps : (p : Ports) → Keeps P (draw_id p)
  unfolding draw_id
  draw_id-Keeps p = record { kept = λ s h. S.drawn s (s.ids + 1) s.clocks h }

  pub read_clock-Keeps : (p : Ports) → Keeps P (read_clock p)
  unfolding read_clock
  read_clock-Keeps p = record { kept = λ s h. S.drawn s s.ids (s.clocks + 1) h }

  pub save_agent-Keeps : (a : AgentIdentity) → Keeps P (save_agent a none)
  unfolding save_agent
  save_agent-Keeps a = record {
    kept = λ s h. insert_row-kept P _ _ _ s h (λ e. S.agent s a (absent _ e) h);
  }

  pub new_assignment-Keeps : (a : MissionAssignment) → Keeps P (save_assignment a none)
  unfolding save_assignment
  new_assignment-Keeps a = record {
    kept = λ s h.
        insert_row-kept P _ _ _ s h
          (λ e. S.assignment s a (inl (absent _ (ground (arith, e)))) (ground (arith, e)) h);
  }

  pub save_assignment-Keeps :
      (a : MissionAssignment) (v : ℕ)
      → assignment_version a ≡ v + 1
      → Keeps P (save_assignment a (some v))
  unfolding save_assignment
  save_assignment-Keeps a v next = record {
    kept = λ s h. update_row-kept P _ _ _ _ s h (λ e f.
        S.assignment s a (in_version-IsNext assignment_version v a _ next e) (ground (arith, f)) h);
  }

  pub new_checkpoint-Keeps : (a : CoordinationCheckpoint) → Keeps P (save_checkpoint a none)
  unfolding save_checkpoint
  new_checkpoint-Keeps a = record {
    kept = λ s h.
        insert_row-kept P _ _ _ s h (λ e. S.checkpoint s a (inl (absent _ (ground (arith, e)))) h);
  }

  pub save_checkpoint-Keeps :
      (a : CoordinationCheckpoint) (v : ℕ)
      → checkpoint_revision a ≡ v + 1
      → Keeps P (save_checkpoint a (some v))
  unfolding save_checkpoint
  save_checkpoint-Keeps a v next = record {
    kept = λ s h.
        update_row-kept P _ _ _ _ s h
          (λ e f. S.checkpoint s a (in_version-IsNext checkpoint_revision v a _ next e) h);
  }

  pub new_binding-Keeps : (a : AgentRuntimeBinding) → Keeps P (save_binding a none)
  unfolding save_binding
  new_binding-Keeps a = record {
    kept = λ s h.
        insert_row-kept P _ _ _ s h
          (λ e. S.binding s a (inl (absent _ (ground (arith, e)))) (ground (arith, e)) h);
  }

  pub save_binding-Keeps :
      (a : AgentRuntimeBinding) (v : ℕ)
      → binding_version a ≡ v + 1
      → Keeps P (save_binding a (some v))
  unfolding save_binding
  save_binding-Keeps a v next = record {
    kept = λ s h. update_row-kept P _ _ _ _ s h (λ e f.
        S.binding s a (in_version-IsNext binding_version v a _ next e) (ground (arith, f)) h);
  }

  pub new_work_item-Keeps : (a : WorkItem) → Keeps P (save_work_item a none)
  unfolding save_work_item
  new_work_item-Keeps a = record {
    kept = λ s h.
        insert_row-kept P _ _ _ s h (λ e. S.work_item s a (inl (absent _ (ground (arith, e)))) h);
  }

  pub save_work_item-Keeps :
      (a : WorkItem) (v : ℕ) → item_version a ≡ v + 1 → Keeps P (save_work_item a (some v))
  unfolding save_work_item
  save_work_item-Keeps a v next = record {
    kept = λ s h.
        update_row-kept P _ _ _ _ s h (λ e f. S.work_item s a (item_matches-IsNext v a _ next e) h);
  }

  pub new_work_attempt-Keeps : (a : WorkAttempt) → Keeps P (save_work_attempt a none)
  unfolding save_work_attempt attempt_clash
  new_work_attempt-Keeps a = record {
    kept = λ s h.
        insert_row-kept P _ _ _ s h
          (λ e. S.work_attempt s a (inl (absent _ (ground (arith, e)))) (ground (arith, e)) h);
  }

  pub save_work_attempt-Keeps :
      (a : WorkAttempt) (v : ℕ) → attempt_version a ≡ v + 1 → Keeps P (save_work_attempt a (some v))
  unfolding save_work_attempt attempt_clash
  save_work_attempt-Keeps a v next = record {
    kept = λ s h. update_row-kept P _ _ _ _ s h (λ e f.
        S.work_attempt s a (in_version-IsNext attempt_version v a _ next e) (ground (arith, f)) h);
  }

  pub save_work_result-Keeps : (r : WorkResult) → Keeps P (save_work_result r)
  unfolding save_work_result result_clash
  save_work_result-Keeps r = record {
    kept = λ s h. insert_row-kept P _ _ _ s h (λ e. S.work_result s r (ground (arith, e)) h);
  }

  pub save_work_evidence_reference-Keeps :
      (r : WorkEvidenceReference) → Keeps P (save_work_evidence_reference r)
  unfolding save_work_evidence_reference
  save_work_evidence_reference-Keeps r = record {
    kept = λ s h. insert_row-kept P _ _ _ s h (λ e. S.reference s r h);
  }

  pub put_idempotency-Keeps : (r : IdempotencyRecord) → Keeps P (put_idempotency r)
  unfolding put_idempotency
  put_idempotency-Keeps r = record {
    kept = λ s h. insert_row-kept P _ _ _ s h (λ e. S.memory s r (absent _ (ground (arith, e))) h);
  }

  pub store_event-Keeps : (e : RuntimeEvent) → Keeps P (store_event e)
  unfolding store_event
  store_event-Keeps e = record {
    kept = λ s h. elim (Bool-cases (eqb e.sequence (next_event_sequence e.agent_id s))) [
      | inl y ↦ rw y (
          insert_row-kept P _ _ _ s h
            (λ z. S.event s e ((eqb_iff e.sequence (next_event_sequence e.agent_id s)).0 y) h))
      | inr n ↦ rw n h
    ];
  }

  settled-kept :
      {A : Type 0} (s : Tables) (r : Reply A) (s' : Tables) → P s → P s' → P (settle s r s').1
  settled-kept s (done a) s' h h' = h'
  settled-kept s (failed e) s' h h' = S.drawn s s'.ids s'.clocks h

  -- A transaction that raises leaves the rows from before.
  pub transaction-Keeps :
      {A : Type 0} (keys : List String) (m : Session A) → Keeps P m → Keeps P (transaction keys m)
  unfolding transaction
  transaction-Keeps [] m hm = record { kept = λ s h. h }
  transaction-Keeps (key ∷ keys) m hm = record {
    kept = λ s h. elim (Bool-cases (is_empty (strip key) || any (λ k. is_empty (strip k)) keys)) [
      | inl y ↦ rw y h
      | inr n ↦ rw n (settled-kept s (m s).0 (m s).1 h (hm.kept s h))
    ];
  }
