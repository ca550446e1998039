-- ===== src/Runtime/Numbering.antt =====
-- The events of each agent: numbered from 1 without a gap, and listed in the order of their writes.
use pantheon_legion.Base.{
  ℕ, ◌+◌, ◌≡◌, refl, ◌∙◌, ap, String, ◌==◌, List, [], ◌∷◌, ◌++◌, inl, inr, Bool-cases, arith,
  eq_iff, ◌⊎◌,
}
use pantheon_legion.Base.Lists.{length}
use pantheon_legion.Runtime.Agent.{RuntimeEvent}
use pantheon_legion.Runtime.Store.{Ports, Tables, no_rows}
use pantheon_legion.Runtime.Repository.{events_of, list_events, next_event_sequence}
use pantheon_legion.Runtime.Queries.{keep_if, place_by, order_by, greatest}
use pantheon_legion.Runtime.Ordering.{keep_if-snoc}
use pantheon_legion.Runtime.Stable.{Stable}
use pantheon_legion.Runtime.Run.{Call, run, run-Stable}

-- The sequence numbers are `n`, `n + 1` and so on.
abbrev pub IsNumberedFrom : ℕ → List RuntimeEvent → Type 0
IsNumberedFrom n [] = Unit
IsNumberedFrom n (e ∷ es) = (e.sequence ≡ n) × IsNumberedFrom (n + 1) es

abbrev sequence_of : RuntimeEvent → ℕ
sequence_of e = e.sequence

IsNumberedFrom-snoc :
    (n : ℕ) (es : List RuntimeEvent) (e : RuntimeEvent)
    → IsNumberedFrom n es
    → e.sequence ≡ n + length es
    → IsNumberedFrom n (es ++ e ∷ [])
IsNumberedFrom-snoc n [] e h same = (omega (arith, same), tt)
IsNumberedFrom-snoc n (d ∷ ds) e (first, rest) same =
    (first, IsNumberedFrom-snoc (n + 1) ds e rest (omega (arith, same)))

greatest-numbered :
    (n : ℕ) (es : List RuntimeEvent)
    → IsNumberedFrom (n + 1) es
    → (es ≡ []) × (greatest sequence_of es ≡ 0) ⊎ (greatest sequence_of es ≡ n + length es)
unfolding greatest
greatest-numbered n [] h = inl (refl, refl)
greatest-numbered n (e ∷ es) (first, rest) = inr (ground (arith, greatest-numbered (n + 1) es rest))

-- A list that is numbered already is in order.
order_by-numbered :
    (n : ℕ) (es : List RuntimeEvent) → IsNumberedFrom n es → order_by sequence_of es ≡ es
unfolding order_by place_by
order_by-numbered n [] h = refl
order_by-numbered n (e ∷ []) h = refl
order_by-numbered n (e ∷ d ∷ ds) (first, (second, rest)) =
    let later : order_by sequence_of (d ∷ ds) ≡ d ∷ ds =
      order_by-numbered (n + 1) (d ∷ ds) (second, rest) in
    rw later (ground (arith, first, second))

record AreNumbered (s : Tables) : Type 0 where
  at : (id : String) → IsNumberedFrom 1 (events_of id s)

next_event_sequence-length :
    (id : String) (s : Tables)
    → IsNumberedFrom 1 (events_of id s)
    → next_event_sequence id s ≡ length (events_of id s) + 1
unfolding next_event_sequence
next_event_sequence-length id s h = ground (arith, greatest-numbered 0 (events_of id s) h)

numbered_again :
    (s : Tables) (e : RuntimeEvent) (id : String)
    → e.sequence ≡ next_event_sequence e.agent_id s
    → IsNumberedFrom 1 (events_of id s)
    → IsNumberedFrom 1 (events_of id (record s { events = s.events ++ e ∷ [] }))
unfolding events_of
numbered_again s e id same h = elim (Bool-cases (e.agent_id == id)) [
  | inl y ↦
      let is : e.agent_id ≡ id = (eq_iff e.agent_id id).0 y in
      let next : e.sequence ≡ 1 + length (events_of id s) =
        same
        ∙ ap (λ i. next_event_sequence i s) is
        ∙ next_event_sequence-length id s h
        ∙ omega arith in
      rw (keep_if-snoc (λ d. d.agent_id == id) s.events e, y)
        (IsNumberedFrom-snoc 1 (events_of id s) e h next)
  | inr n ↦ rw (keep_if-snoc (λ d. d.agent_id == id) s.events e, n) h
]

AreNumbered-Stable : Stable AreNumbered
unfolding events_of
AreNumbered-Stable = record {
  drawn = λ s i c h. record { at = h.at };
  agent = λ s a new h. record { at = h.at };
  assignment = λ s a next alone h. record { at = h.at };
  checkpoint = λ s a next h. record { at = h.at };
  binding = λ s a next alone h. record { at = h.at };
  work_item = λ s a next h. record { at = h.at };
  work_attempt = λ s a next alone h. record { at = h.at };
  work_result = λ s r new h. record { at = h.at };
  reference = λ s r h. record { at = h.at };
  event = λ s e same h. record { at = λ id. numbered_again s e id same (h.at id) };
  memory = λ s r new h. record { at = h.at };
}

no_rows-AreNumbered : AreNumbered no_rows
unfolding events_of keep_if
no_rows-AreNumbered = record { at = λ id. tt }

-- From empty tables, after any sequence of calls and of transactions of calls, returned or raised:
-- the events listed for an agent are those that were written for it, in the order of their writes
-- and numbered 1, 2 and so on, and the next number is one more than their count.
pub run-IsNumberedFrom :
    (p : Ports) (cs : List Call) (id : String)
    → IsNumberedFrom 1 (list_events id (run p cs no_rows))
      × (list_events id (run p cs no_rows) ≡ events_of id (run p cs no_rows))
      × (next_event_sequence id (run p cs no_rows) ≡ length (list_events id (run p cs no_rows)) + 1)
unfolding list_events
run-IsNumberedFrom p cs id =
    let numbered = (run-Stable AreNumbered-Stable p cs no_rows no_rows-AreNumbered).at id in
    let ordered = order_by-numbered 1 (events_of id (run p cs no_rows)) numbered in
    rw ordered (numbered, refl, next_event_sequence-length id (run p cs no_rows) numbered)
