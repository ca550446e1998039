-- ===== src/Kernel/Journal/Step.antt =====
-- One call of `_record` as a step of the state: what it writes, and what it leaves alone.
use pantheon_legion.Base.{
  text_eq, ℕ, ◌+◌, ◌≤◌, ◌≡◌, refl, String, Option, none, some, List, [], ◌∷◌, ◌++◌, inl, inr,
  Bool-cases, arith,
}
use pantheon_legion.Base.Dict.{lookup, insert}
use pantheon_legion.Base.Lists.{length}
use pantheon_legion.Base.Text.{is_empty}
use pantheon_legion.Kernel.Types.{AuditEvent, Mission}
use pantheon_legion.Kernel.State.{
  World, Kernel, ok, raised, key_error, ◌>>=◌, or_uuid, uuid4, clock,
}
use pantheon_legion.Kernel.Journal.{Entry, record_event, append_event}

-- What a draw of an optional text leaves of the state: all but the count of draws.
pub or_uuid_step :
    (w : World) (given : Option String) (k : Kernel)
    → (s : String) × (n : ℕ) × (or_uuid w given k ≡ (ok s, record k { uuids = n })) × (k.uuids ≤ n)
unfolding or_uuid
or_uuid_step w none k = (w.uuid k.uuids, k.uuids + 1, refl, omega arith)
or_uuid_step w (some s) k = elim (Bool-cases (is_empty s)) [
  | inl e ↦ (w.uuid k.uuids, k.uuids + 1, rw e, omega arith)
  | inr e ↦ (s, k.uuids, rw e, omega arith)
]

-- An event that `_record` makes for a Mission behind the events that are there.
pub record IsNext (m : Mission) (e : Entry) (earlier : List AuditEvent) (ev : AuditEvent)
    : Type 0 where
  pub numbered : ev.sequence ≡ length earlier + 1
  pub owned : ev.mission_id ≡ m.id
  pub versioned : ev.mission_version ≡ m.version
  pub typed : ev.event_type ≡ e.event_type
  pub resulted : ev.result ≡ e.result

abbrev pub appended : Kernel → Mission → List AuditEvent → AuditEvent → (u c : ℕ) → Kernel
appended k m earlier ev u c = record k {
  audit = insert m.id (earlier ++ ev ∷ []) k.audit;
  uuids = u;
  clocks = c;
}

module _ (w : World) (m : Mission) (e : Entry) (k : Kernel) where
  pub record_event_step :
      (earlier : List AuditEvent)
      → lookup m.id k.audit ≡ some earlier
      → (ev : AuditEvent) × (u : ℕ) × (c : ℕ) × (record_event w m e k
          ≡ (ok ev, appended k m earlier ev u c))
        × IsNext m e earlier ev
        × (k.uuids ≤ u)
  unfolding record_event append_event ◌>>=◌ uuid4 clock
  record_event_step earlier found =
      let k' : Kernel = record k { uuids = k.uuids + 1; clocks = k.clocks + 1 } in
      let (s, n, drawn, more) = or_uuid_step w e.correlation_id k' in
      (
        record {
          id = w.uuid k.uuids;
          sequence = length earlier + 1;
          mission_id = m.id;
          mission_version = m.version;
          event_type = e.event_type;
          occurred_at = w.now k.clocks;
          actor = e.actor;
          result = e.result;
          correlation_id = s;
          command_id = e.command_id;
          approval_id = e.approval_id;
          causation_id = none;
          details = e.details;
        },
        n,
        k.clocks + 1,
        ground (arith, drawn, found),
        record { numbered = refl; owned = refl; versioned = refl; typed = refl; resulted = refl },
        omega (arith, more),
      )

  pub record_event_missing :
      lookup m.id k.audit ≡ none → record_event w m e k ≡ (raised (key_error m.id), k)
  unfolding record_event ◌>>=◌
  record_event_missing missing = rw missing
