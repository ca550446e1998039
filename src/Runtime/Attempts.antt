-- ===== src/Runtime/Attempts.antt =====
-- The attempts of a work item: numbered apart, so that the latest one is the last in their order.
use mathlib.Core.Path.{subst}
use pantheon_legion.Base.{
  ℕ, ◌≡◌, refl, sym, ◌∙◌, ap, String, ◌==◌, Bool, true, false, ◌&&◌, not, eqb, none, some, List, [],
  ◌∷◌, inl, inr, arith, eq_iff, text_eq, Bool-cases,
}
use pantheon_legion.Base.Dict.{Dict, lookup, insert, values, lookup-insert}
use pantheon_legion.Runtime.Work.{WorkAttempt}
use pantheon_legion.Runtime.Store.{Ports, Tables, no_rows}
use pantheon_legion.Runtime.Repository.{
  second_number, attempts_of, list_work_attempts, get_latest_work_attempt,
}
use pantheon_legion.Runtime.Stable.{Stable}
use pantheon_legion.Runtime.Run.{Call, run, run-Stable}
use pantheon_legion.Runtime.Owners.{IsOnePerOwner, insert-IsOnePerOwner, any-lookup}
use pantheon_legion.Runtime.Ordering.{last, Each, Each-map, keep_if-Each, find-last}

module _ {A : Type 0} where
  -- No key stands twice.
  abbrev HasDistinctKeys : Dict String A → Type 0
  HasDistinctKeys [] = Unit
  HasDistinctKeys ((i, a) ∷ d) = (lookup i d ≡ none) × HasDistinctKeys d

  insert-HasDistinctKeys :
      (k : String) (a : A) (d : Dict String A) → HasDistinctKeys d → HasDistinctKeys (insert k a d)
  unfolding insert lookup
  insert-HasDistinctKeys k a [] h = (refl, tt)
  insert-HasDistinctKeys k a ((j, b) ∷ d) (new, rest) = elim (Bool-cases (j == k)) [
    | inl y ↦ rw y (new, rest)
    | inr n ↦ rw n (
      ground (arith, lookup-insert k j a d, eq_iff j k, eq_iff k j, n, new),
      insert-HasDistinctKeys k a d rest,
    )
  ]

  -- Each value is found under a key.
  values-Each :
      (d : Dict String A)
      → HasDistinctKeys d
      → Each (λ a. (i : String) × (lookup i d ≡ some a)) (values d)
  unfolding values lookup
  values-Each [] h = tt
  values-Each ((i, a) ∷ d) (new, rest) = (
    (i, ground (arith, eq_iff i i)),
    Each-map (λ b found. (found.0, ground (arith, new, found.1, eq_iff i found.0))) (values d)
        (values-Each d rest),
  )

abbrev pub attempt_key : WorkAttempt → String
attempt_key a = a.attempt_id

-- The item and the number of an attempt.
abbrev pub attempt_place : WorkAttempt → String × ℕ
attempt_place a = (a.work_item_id, a.attempt_number)

abbrev pub any_attempt : WorkAttempt → Bool
any_attempt a = true

pub record AreApart (s : Tables) : Type 0 where
  pub attempts : IsOnePerOwner attempt_key attempt_place any_attempt s.work_attempts
  pub keys : HasDistinctKeys s.work_attempts

attempt_alone :
    (a : WorkAttempt) (s : Tables)
    → second_number a s ≡ false
    → IsOnePerOwner attempt_key attempt_place any_attempt s.work_attempts
    → (j : String) (b : WorkAttempt) → lookup j s.work_attempts ≡ some b
    → any_attempt a ≡ true
    → any_attempt b ≡ true
    → attempt_place b ≡ attempt_place a
    → j ≡ a.attempt_id
unfolding second_number
attempt_alone a s alone h j b found live live' same =
    let here : b.attempt_id ≡ j = h.keyed j b found in
    let test =
      any-lookup
        (λ c.
          c.work_item_id == a.work_item_id
          && eqb c.attempt_number a.attempt_number
          && not (c.attempt_id == a.attempt_id))
        s.work_attempts j b alone found in
    let item : b.work_item_id ≡ a.work_item_id = ap (λ x. x.0) same in
    let number : b.attempt_number ≡ a.attempt_number = ap (λ x. x.1) same in
    sym here
    ∙ ground (
      arith,
      test,
      eq_iff b.work_item_id a.work_item_id,
      eq_iff b.attempt_id a.attempt_id,
      item,
      number,
    )

AreApart-Stable : Stable AreApart
AreApart-Stable = record {
  drawn = λ s i c h. record { attempts = h.attempts; keys = h.keys };
  agent = λ s a new h. record { attempts = h.attempts; keys = h.keys };
  assignment = λ s a next alone h. record { attempts = h.attempts; keys = h.keys };
  checkpoint = λ s a next h. record { attempts = h.attempts; keys = h.keys };
  binding = λ s a next alone h. record { attempts = h.attempts; keys = h.keys };
  work_item = λ s a next h. record { attempts = h.attempts; keys = h.keys };
  work_attempt = λ s a next alone h. record {
    attempts =
        insert-IsOnePerOwner attempt_key attempt_place any_attempt a s.work_attempts
          (attempt_alone a s alone h.attempts) h.attempts;
    keys = insert-HasDistinctKeys a.attempt_id a s.work_attempts h.keys;
  };
  work_result = λ s r new h. record { attempts = h.attempts; keys = h.keys };
  reference = λ s r h. record { attempts = h.attempts; keys = h.keys };
  event = λ s e same h. record { attempts = h.attempts; keys = h.keys };
  memory = λ s r new h. record { attempts = h.attempts; keys = h.keys };
}

no_rows-AreApart : AreApart no_rows
unfolding lookup
no_rows-AreApart = record {
  attempts = record {
    keyed = λ i a h. absurd (ground (arith, h));
    one = λ i j a b h. absurd (ground (arith, h));
  };
  keys = tt;
}

-- From empty tables, after any sequence of calls and of transactions of calls, every attempt stands
-- under its own id, and two attempts of one work item with the same number are one.
pub run-AreApart : (p : Ports) (cs : List Call) → AreApart (run p cs no_rows)
run-AreApart p cs = run-Stable AreApart-Stable p cs no_rows no_rows-AreApart

abbrev number_of : WorkAttempt → ℕ
number_of a = a.attempt_number

-- A row of the table, of the item.
abbrev IsOf : String → Tables → WorkAttempt → Type 0
IsOf item s a =
    ((i : String) × (lookup i s.work_attempts ≡ some a)) × ((a.work_item_id == item) ≡ true)

attempts_of-Each :
    (item : String) (s : Tables) → AreApart s → Each (IsOf item s) (attempts_of item s)
attempts_of-Each item s h =
    keep_if-Each _ (λ (a : WorkAttempt). a.work_item_id == item) (values s.work_attempts)
      (values-Each s.work_attempts h.keys)

same_attempt :
    (item : String) (s : Tables) (a b : WorkAttempt)
    → AreApart s
    → IsOf item s a
    → IsOf item s b
    → a.attempt_number ≡ b.attempt_number
    → a ≡ b
same_attempt item s a b h ((i, found), of) ((j, found'), of') number =
    let place : a.work_item_id ≡ b.work_item_id =
      (eq_iff a.work_item_id item).0 of ∙ sym ((eq_iff b.work_item_id item).0 of') in
    let here : i ≡ j = h.attempts.one i j a b found found' refl refl (λ k. (place k, number k)) in
    let found'' : lookup j s.work_attempts ≡ some a =
      subst (λ x. lookup x s.work_attempts ≡ some a) here found in
    ground (arith, found', found'')

-- From empty tables, after any sequence of calls and of transactions of calls, for every work item,
-- `get_latest_work_attempt` returns the last of `list_work_attempts`, and nothing if that list is
-- empty.
pub run-latest :
    (p : Ports) (cs : List Call) (item : String)
    → get_latest_work_attempt item (run p cs no_rows)
      ≡ last (list_work_attempts item (run p cs no_rows))
unfolding get_latest_work_attempt list_work_attempts
run-latest p cs item =
    let h = run-AreApart p cs in
    find-last number_of (IsOf item (run p cs no_rows)) (attempts_of item (run p cs no_rows))
      (λ a b of of' number. same_attempt item (run p cs no_rows) a b h of of' number)
      (attempts_of-Each item (run p cs no_rows) h)
