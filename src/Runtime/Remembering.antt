-- ===== src/Runtime/Remembering.antt =====
-- What an idempotency key stands for, and the result of a work item: the only row that a query can
-- find, so that `.first()` without an order has no choice.
use pantheon_legion.Base.{
  ◌≡◌, ◌≤◌, refl, String, ◌==◌, ◌&&◌, ◌||◌, Bool, true, false, none, some, List, [], ◌∷◌, ◌++◌,
  arith, eq_iff, text_eq,
}
use pantheon_legion.Base.Lists.{length, any}
use pantheon_legion.Runtime.Work.{WorkResult}
use pantheon_legion.Runtime.Store.{Ports, IdempotencyRecord, Tables, no_rows}
use pantheon_legion.Runtime.Queries.{keep_if, find}
use pantheon_legion.Runtime.Repository.{second_result, get_idempotency, get_work_result}
use pantheon_legion.Runtime.Ordering.{keep_if-none, keep_if-found, find-more, snoc-few}
use pantheon_legion.Runtime.Stable.{Stable}
use pantheon_legion.Runtime.Run.{Call, run, run-Stable}
use pantheon_legion.Runtime.Growth.{run-Advances}

abbrev is_under : (scope operation key : String) → IdempotencyRecord → Bool
is_under scope operation key r =
    r.scope == scope && r.operation == operation && r.idempotency_key == key

-- The rows of a key, the results of a work item and those of an attempt.
abbrev pub rows_under : (scope operation key : String) → Tables → List IdempotencyRecord
rows_under scope operation key s = keep_if (is_under scope operation key) s.idempotency

abbrev pub results_of_item : String → Tables → List WorkResult
results_of_item item s = keep_if (λ r. r.work_item_id == item) s.work_results

abbrev pub results_of_attempt : String → Tables → List WorkResult
results_of_attempt attempt s = keep_if (λ r. r.attempt_id == attempt) s.work_results

record AreSingle (s : Tables) : Type 0 where
  keys : (scope operation key : String) → length (rows_under scope operation key s) ≤ 1
  items : (item : String) → length (results_of_item item s) ≤ 1
  attempts : (attempt : String) → length (results_of_attempt attempt s) ≤ 1

add_row :
    (s : Tables) (r : IdempotencyRecord) (scope operation key : String)
    → get_idempotency r.scope r.operation r.idempotency_key s ≡ none
    → length (rows_under scope operation key s) ≤ 1
    → length (rows_under scope operation key (record s { idempotency = s.idempotency ++ r ∷ [] }))
      ≤ 1
unfolding get_idempotency
add_row s r scope operation key new few =
    snoc-few (is_under scope operation key) s.idempotency r
      (λ is.
        let one : r.scope ≡ scope = (eq_iff r.scope scope).0 (ground (arith, is)) in
        let two : r.operation ≡ operation = (eq_iff r.operation operation).0 (ground (arith, is)) in
        let three : r.idempotency_key ≡ key =
          (eq_iff r.idempotency_key key).0 (ground (arith, is)) in
        keep_if-none (is_under scope operation key) s.idempotency (rw (one, two, three) at new))
      few

module _ (s : Tables) (r : WorkResult) (new : second_result r s ≡ false) where
  none_second :
      (p : WorkResult → Bool) (l : List WorkResult)
      → ((q : WorkResult)
          → p q ≡ true
          → (q.result_id == r.result_id
              || q.work_item_id == r.work_item_id
              || q.attempt_id == r.attempt_id)
            ≡ true)
      → any
          (λ (q : WorkResult).
            q.result_id == r.result_id
            || q.work_item_id == r.work_item_id
            || q.attempt_id == r.attempt_id)
          l
        ≡ false
      → find p l ≡ none
  unfolding find
  none_second p [] same h = refl
  none_second p (q ∷ l) same h = ground (arith, none_second p l same, same q, h)

  add_item :
      (item : String)
      → length (results_of_item item s) ≤ 1
      → length (results_of_item item (record s { work_results = s.work_results ++ r ∷ [] })) ≤ 1
  unfolding second_result
  add_item item few =
      snoc-few (λ q. q.work_item_id == item) s.work_results r
        (λ is. keep_if-none _ s.work_results (
          none_second (λ q. q.work_item_id == item) s.work_results
            (λ q of. ground (
              arith,
              of,
              is,
              eq_iff q.work_item_id item,
              eq_iff r.work_item_id item,
              eq_iff q.work_item_id r.work_item_id,
            ))
            new))
        few

  add_attempt :
      (attempt : String)
      → length (results_of_attempt attempt s) ≤ 1
      → length (results_of_attempt attempt (record s { work_results = s.work_results ++ r ∷ [] }))
        ≤ 1
  unfolding second_result
  add_attempt attempt few =
      snoc-few (λ q. q.attempt_id == attempt) s.work_results r
        (λ is. keep_if-none _ s.work_results (
          none_second (λ q. q.attempt_id == attempt) s.work_results
            (λ q of. ground (
              arith,
              of,
              is,
              eq_iff q.attempt_id attempt,
              eq_iff r.attempt_id attempt,
              eq_iff q.attempt_id r.attempt_id,
            ))
            new))
        few

AreSingle-Stable : Stable AreSingle
AreSingle-Stable = record {
  drawn = λ s i c h. record { keys = h.keys; items = h.items; attempts = h.attempts };
  agent = λ s a new h. record { keys = h.keys; items = h.items; attempts = h.attempts };
  assignment = λ s a next alone h. record { keys = h.keys; items = h.items; attempts = h.attempts };
  checkpoint = λ s a next h. record { keys = h.keys; items = h.items; attempts = h.attempts };
  binding = λ s a next alone h. record { keys = h.keys; items = h.items; attempts = h.attempts };
  work_item = λ s a next h. record { keys = h.keys; items = h.items; attempts = h.attempts };
  work_attempt =
      λ s a next alone h. record { keys = h.keys; items = h.items; attempts = h.attempts };
  work_result = λ s r new h. record {
    keys = h.keys;
    items = λ item. add_item s r new item (h.items item);
    attempts = λ attempt. add_attempt s r new attempt (h.attempts attempt);
  };
  reference = λ s r h. record { keys = h.keys; items = h.items; attempts = h.attempts };
  event = λ s e same h. record { keys = h.keys; items = h.items; attempts = h.attempts };
  memory = λ s r new h. record {
    keys = λ scope operation key. add_row s r scope operation key new (h.keys scope operation key);
    items = h.items;
    attempts = h.attempts;
  };
}

no_rows-AreSingle : AreSingle no_rows
unfolding keep_if
no_rows-AreSingle = record {
  keys = λ scope operation key. omega arith;
  items = λ item. omega arith;
  attempts = λ attempt. omega arith;
}

run-AreSingle : (p : Ports) (cs ds : List Call) → AreSingle (run p ds (run p cs no_rows))
run-AreSingle p cs ds =
    run-Stable AreSingle-Stable p ds (run p cs no_rows)
      (run-Stable AreSingle-Stable p cs no_rows no_rows-AreSingle)

-- From empty tables, after any sequence `cs` of calls and of transactions of calls, a row that an
-- idempotency key finds is the one row of the key, however many calls `ds` follow; the result that
-- a work item has is the one result of the item, however many calls follow; and an attempt never has
-- two results.
pub run-remembered :
    (p : Ports) (cs ds : List Call)
    → ((scope operation key : String) (r : IdempotencyRecord)
        → get_idempotency scope operation key (run p cs no_rows) ≡ some r
        → rows_under scope operation key (run p ds (run p cs no_rows)) ≡ r ∷ [])
      × ((item : String) (r : WorkResult)
          → get_work_result item (run p cs no_rows) ≡ some r
          → results_of_item item (run p ds (run p cs no_rows)) ≡ r ∷ [])
      × ((attempt : String) → length (results_of_attempt attempt (run p ds (run p cs no_rows))) ≤ 1)
unfolding get_idempotency get_work_result
run-remembered p cs ds =
    let after = run-Advances p ds (run p cs no_rows) in
    let single = run-AreSingle p cs ds in
    let (keys, more_keys) = after.idempotency in
    let (results, more_results) = after.work_results in
    (
      λ scope operation key r h.
          keep_if-found (is_under scope operation key) _ r
            (rw more_keys (find-more _ (run p cs no_rows).idempotency keys r h))
            (single.keys scope operation key),
      λ item r h.
          keep_if-found (λ q. q.work_item_id == item) _ r
            (rw more_results (find-more _ (run p cs no_rows).work_results results r h))
            (single.items item),
      single.attempts,
    )
