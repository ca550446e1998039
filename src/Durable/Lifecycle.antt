-- ===== src/Durable/Lifecycle.antt =====
-- The life of an execution: the diagram of its states, and that every call of the adapter moves
-- each record along it.
use pantheon_legion.Base.{
  text_eq, ℕ, ◌≡◌, ◌≤◌, refl, sym, ◌∙◌, inl, inr, String, Bool, true, false, Option, none, some,
  List, [], ◌∷◌, ◌==◌, Bool-cases, arith, eq_iff,
}
use mathlib.Core.Path.{subst}
use pantheon_legion.Base.Dict.{lookup, insert, lookup-insert, lookup-insert_self}
use pantheon_legion.Base.Json.{Fields}
use pantheon_legion.Durable.Records.{
  ExecutionState, state_in, ExecutionRecord, Store, transition_error, signal_transition, starting,
  running, paused, waiting, cancelling, cancelled, completed, failed,
}

-- Neither CANCELLED nor COMPLETED
pub data IsOpen : ExecutionState → Type 0 where
  open_starting : IsOpen starting
  open_running : IsOpen running
  open_paused : IsOpen paused
  open_waiting : IsOpen waiting
  open_cancelling : IsOpen cancelling
  open_failed : IsOpen failed

infix 40 ◌↝◌
pub data ◌↝◌ : ExecutionState → ExecutionState → Type 0 where
  hold : running ↝ paused
  hold_waiting : waiting ↝ paused
  resume : paused ↝ running
  resume_waiting : waiting ↝ running
  wait : running ↝ waiting
  finish : running ↝ completed
  break_down : running ↝ failed
  restart_starting : starting ↝ running
  restart_cancelling : cancelling ↝ running
  restart_failed : failed ↝ running
  abandon : {s : ExecutionState} → IsOpen s → s ↝ cancelled
  stay : {s : ExecutionState} → s ↝ s

-- CANCELLED or COMPLETED
abbrev pub is_final : ExecutionState → Bool
is_final s = state_in s (cancelled ∷ completed ∷ [])

-- What one call may do to a record: it keeps what names the execution, never takes an attempt
-- back, moves the state along the diagram, and leaves a final record as it is.
pub record Moves (r r' : ExecutionRecord) : Type 0 where
  pub execution : r'.execution_id ≡ r.execution_id
  pub mission : r'.mission_id ≡ r.mission_id
  pub command : r'.command_id ≡ r.command_id
  pub key : r'.idempotency_key ≡ r.idempotency_key
  pub created : r'.created_at ≡ r.created_at
  pub attempts : r.attempt ≤ r'.attempt
  pub state : r.state ↝ r'.state
  pub final : is_final r.state ≡ true → r' ≡ r

pub Moves-refl : (r : ExecutionRecord) → Moves r r
Moves-refl r = record {
  execution = refl;
  mission = refl;
  command = refl;
  key = refl;
  created = refl;
  attempts = omega arith;
  state = stay;
  final = λ ended. refl;
}

-- Every record of the first store is in the second, moved or as it was.
pub record Evolves (st st' : Store) : Type 0 where
  pub evolves :
      (id : String) (r : ExecutionRecord)
      → lookup id st.records ≡ some r
      → (r' : ExecutionRecord) × (lookup id st'.records ≡ some r') × Moves r r'

pub Evolves-refl : (st : Store) → Evolves st st
Evolves-refl st = record { evolves = λ id r found. (r, found, Moves-refl r) }

-- Every record is stored under its own id.
pub record IsKeyed (st : Store) : Type 0 where
  pub keyed :
      (id : String) (r : ExecutionRecord) → lookup id st.records ≡ some r → r.execution_id ≡ id

pub Evolves-insert :
    (st st' : Store) (old r : ExecutionRecord) (id : String)
    → lookup id st.records ≡ some old
    → Moves old r
    → st'.records ≡ insert id r st.records
    → Evolves st st'
Evolves-insert st st' old r id found moves written = record {
  evolves = λ j other there. elim (Bool-cases (id == j)) [
    | inl same ↦
        let is : id ≡ j = (eq_iff id j).0 same in
        let one : old ≡ other = ground (arith, found, rw (sym is) at there) in
        (
          r,
          rw (written, sym is) (lookup-insert_self id r st.records),
          subst (λ o. Moves o r) one moves,
        )
    | inr apart ↦ (
      other,
      ground (arith, written, lookup-insert id j r st.records, apart, there),
      Moves-refl other,
    )
  ];
}

pub Evolves-same :
    (st one two : Store)
    → Evolves st one
    → ((id : String) → lookup id two.records ≡ lookup id one.records)
    → Evolves st two
Evolves-same st one two h same = record {
  evolves =
      λ id r found. let (r', there, moves) = h.evolves id r found in (r', same id ∙ there, moves);
}

pub IsOpen-of : (s : ExecutionState) → state_in s (cancelled ∷ completed ∷ []) ≡ false → IsOpen s
IsOpen-of starting h = open_starting
IsOpen-of running h = open_running
IsOpen-of paused h = open_paused
IsOpen-of waiting h = open_waiting
IsOpen-of cancelling h = open_cancelling
IsOpen-of failed h = open_failed
IsOpen-of cancelled h = absurd (ground (arith, h))
IsOpen-of completed h = absurd (ground (arith, h))

-- An execution that is open, and neither paused nor waiting, can be run again.
pub restart_of :
    (s : ExecutionState)
    → state_in s (cancelled ∷ completed ∷ []) ≡ false
    → state_in s (paused ∷ waiting ∷ []) ≡ false
    → s ↝ running
restart_of starting h g = restart_starting
restart_of running h g = stay
restart_of paused h g = absurd (ground (arith, g))
restart_of waiting h g = absurd (ground (arith, g))
restart_of cancelling h g = restart_cancelling
restart_of failed h g = restart_failed
restart_of cancelled h g = absurd (ground (arith, h))
restart_of completed h g = absurd (ground (arith, h))

pub running_of : (s : ExecutionState) → state_in s (running ∷ []) ≡ true → s ≡ running
running_of running h = refl
running_of starting h = absurd (ground (arith, h))
running_of paused h = absurd (ground (arith, h))
running_of waiting h = absurd (ground (arith, h))
running_of cancelling h = absurd (ground (arith, h))
running_of failed h = absurd (ground (arith, h))
running_of cancelled h = absurd (ground (arith, h))
running_of completed h = absurd (ground (arith, h))

hold_of : (s : ExecutionState) → state_in s (running ∷ waiting ∷ []) ≡ true → s ↝ paused
hold_of running h = hold
hold_of waiting h = hold_waiting
hold_of starting h = absurd (ground (arith, h))
hold_of paused h = absurd (ground (arith, h))
hold_of cancelling h = absurd (ground (arith, h))
hold_of failed h = absurd (ground (arith, h))
hold_of cancelled h = absurd (ground (arith, h))
hold_of completed h = absurd (ground (arith, h))

resume_of : (s : ExecutionState) → state_in s (paused ∷ waiting ∷ []) ≡ true → s ↝ running
resume_of paused h = resume
resume_of waiting h = resume_waiting
resume_of starting h = absurd (ground (arith, h))
resume_of running h = absurd (ground (arith, h))
resume_of cancelling h = absurd (ground (arith, h))
resume_of failed h = absurd (ground (arith, h))
resume_of cancelled h = absurd (ground (arith, h))
resume_of completed h = absurd (ground (arith, h))

-- A transition that the adapter lets pass starts in one of the allowed states.
pub transition_error-allowed :
    (r : ExecutionRecord) (allowed : List ExecutionState)
    → transition_error r allowed ≡ none
    → state_in r.state allowed ≡ true
unfolding transition_error
transition_error-allowed r allowed passed = ground (arith, passed)

pub transition_error-live :
    (r : ExecutionRecord) (allowed : List ExecutionState)
    → transition_error r allowed ≡ none
    → is_final r.state ≡ false
unfolding transition_error
transition_error-live r allowed passed = ground (arith, passed)

pub signal_transition-edge :
    (name : String) (allowed : List ExecutionState) (next s : ExecutionState)
    → signal_transition name ≡ some (allowed, next)
    → state_in s allowed ≡ true
    → s ↝ next
unfolding signal_transition
signal_transition-edge name allowed next s known inside = elim (Bool-cases (name == "PAUSE")) [
  | inl is ↦ arrives (running ∷ waiting ∷ []) paused (rw is at known) (hold_of s)
  | inr no_pause ↦ elim (Bool-cases (name == "RESUME")) [
    | inl is ↦ arrives (paused ∷ waiting ∷ []) running (rw (no_pause, is) at known) (resume_of s)
    | inr no_resume ↦ elim (Bool-cases (name == "WAIT")) [
      | inl is ↦
          arrives (running ∷ []) waiting (rw (no_pause, no_resume, is) at known)
            (λ h. subst (λ t. t ↝ waiting) (sym (running_of s h)) wait)
      | inr no_wait ↦ absurd (ground (arith, rw (no_pause, no_resume, no_wait) at known))
    ]
  ]
]
  where
    arrives :
        (states : List ExecutionState) (t : ExecutionState)
        → ◌≡◌ {A = Option (List ExecutionState × ExecutionState)}
            (some (states, t))
            (some (allowed, next))
        → (state_in s states ≡ true → s ↝ t)
        → s ↝ next
    arrives states t same edge =
        let left : states ≡ allowed = ground (arith, same) in
        let right : t ≡ next = ground (arith, same) in
        subst (λ u. s ↝ u) right (edge (rw left inside))

pub Moves-by :
    (r : ExecutionRecord) (s : ExecutionState) (attempt : ℕ)
    → (input : Fields) → (result : Option Fields) → (failure : Option String) → r.attempt ≤ attempt
    → r.state ↝ s
    → is_final r.state ≡ false
    → Moves r (record r {
      state = s;
      attempt = attempt;
      input = input;
      result = result;
      failure = failure;
    })
Moves-by r s attempt input result failure more edge live = record {
  execution = refl;
  mission = refl;
  command = refl;
  key = refl;
  created = refl;
  attempts = more;
  state = edge;
  final = λ ended. absurd (ground (arith, live, ended));
}
