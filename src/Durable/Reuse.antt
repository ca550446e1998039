-- ===== src/Durable/Reuse.antt =====
-- A start that is repeated: the idempotency key leads back to the execution that it started.
use pantheon_legion.Base.{
  text_eq, ◌≡◌, ◌⊎◌, refl, sym, ◌∙◌, inl, inr, String, true, false, some, Bool-cases, Option-cases,
  arith, eq_iff,
}
use mathlib.Core.Path.{subst}
use pantheon_legion.Base.Dict.{lookup, lookup-insert_self}
use pantheon_legion.Base.Json.{Fields, obj, canonical, value_eq_refl}
use pantheon_legion.Base.Text.{is_empty}
use pantheon_legion.Kernel.State.{pair_eq}
use pantheon_legion.Durable.{new_record, create, start_again, start}
use pantheon_legion.Durable.Records.{ExecutionRecord, Sources, Store, same_input, returned}

same_input_refl : (input : Fields) → same_input input input ≡ true
unfolding same_input
same_input_refl input = value_eq_refl (canonical (obj input))

module _ (w : Sources) (mission_id command_id key : String) (input : Fields) where
  -- The start of the execution that stands at the key.
  start-known :
      (st : Store) (id : String) (r : ExecutionRecord)
      → lookup (mission_id, key) st.by_idempotency ≡ some id
      → is_empty id ≡ false
      → lookup id st.records ≡ some r
      → r.command_id ≡ command_id
      → same_input r.input input ≡ true
      → start w mission_id command_id key input st ≡ (returned r, st)
  unfolding start start_again
  start-known st id r known has_id found command same =
      ground (arith, known, has_id, found, same, (eq_iff r.command_id command_id).1 command)

  create-start :
      (st : Store)
      → is_empty (w.uuid st.uuids) ≡ false
      → start w mission_id command_id key input (create w mission_id command_id key input st).1
        ≡ create w mission_id command_id key input st
  unfolding create new_record
  create-start st has_id =
      start-known _ (w.uuid st.uuids) (new_record w mission_id command_id key input st)
        (lookup-insert_self (mission_id, key) (w.uuid st.uuids) st.by_idempotency) has_id
        (lookup-insert_self (w.uuid st.uuids) _ st.records) refl (same_input_refl input)

  start_again-returned :
      (st : Store) (id : String) (r : ExecutionRecord) (st' : Store)
      → start_again w command_id input id st ≡ (returned r, st')
      → st' ≡ st
  unfolding start_again
  start_again-returned st id r st' same = ground (arith, same)

  -- A start creates an execution, or goes back to a known one.
  start-cases :
      (st : Store)
      → (start w mission_id command_id key input st ≡ create w mission_id command_id key input st)
        ⊎ ((id : String) × (start w mission_id command_id key input st
              ≡ start_again w command_id input id st))
  unfolding start
  start-cases st = elim (Option-cases (lookup (mission_id, key) st.by_idempotency)) [
    | inl new ↦ inl (rw (new, start) refl)
    | inr (id, known) ↦ elim (Bool-cases (is_empty id)) [
      | inl no_id ↦ inl (rw (known, no_id, start) refl)
      | inr has_id ↦ inr (id, rw (known, has_id, start) refl)
    ]
  ]

-- A start that returned, repeated on the store that it left, returns the same execution and
-- changes nothing: no second execution is made. The next uuid is only asked not to be empty.
pub start-replay :
    (w : Sources) (mission_id command_id key : String) (input : Fields) (st : Store)
    → (r : ExecutionRecord) → (st' : Store) → is_empty (w.uuid st.uuids) ≡ false
    → start w mission_id command_id key input st ≡ (returned r, st')
    → start w mission_id command_id key input st' ≡ (returned r, st')
start-replay w mission_id command_id key input st r st' has_id same =
    elim (start-cases w mission_id command_id key input st) [
      | inl creates ↦
          subst (λ p. start w mission_id command_id key input p.1 ≡ p) (sym creates ∙ same)
            (create-start w mission_id command_id key input st has_id)
      | inr (id, again) ↦
          let kept : st' ≡ st =
            start_again-returned w mission_id command_id key input st id r st' (sym again ∙ same) in
          subst (λ s. start w mission_id command_id key input s ≡ (returned r, st')) (sym kept) same
    ]
