-- ===== src/Durable/Snapshot.antt =====
-- `snapshot` and `_restore` of the durable adapter: the document in which a store is kept.
use pantheon_legion.Base.{
  text_eq, ◌≡◌, refl, sym, ap, ◌∙◌, String, false, Option, none, some, List, [], ◌∷◌, ◌++◌, ◌==◌,
  if◌then◌else◌, arith, Eq,
}
use mathlib.Core.List.{append_assoc, append-nil}
use pantheon_legion.Base.Dict.{Dict, lookup, insert, values}
use pantheon_legion.Kernel.State.{pair_eq}
use pantheon_legion.Durable.Records.{
  ExecutionState, state_value, ExecutionRecord, Store, Outcome, starting, running, paused, waiting,
  cancelling, cancelled, completed, failed, value_error, returned, failed_with,
}

-- `ExecutionState(text)`
unfoldable pub parse_state : String → Option ExecutionState
parse_state s =
    if s == "STARTING"
    then some starting
    else if s == "RUNNING"
    then some running
    else if s == "PAUSED"
    then some paused
    else if s == "WAITING"
    then some waiting
    else if s == "CANCELLING"
    then some cancelling
    else if s == "CANCELLED"
    then some cancelled
    else if s == "COMPLETED"
    then some completed
    else if s == "FAILED"
    then some failed
    else none

-- `{**asdict(record), "state": record.state.value}`: the record, in which the state is a text.
pub record RawRecord : Type 0 where
  pub content : ExecutionRecord
  pub state : String

pub record Link : Type 0 where
  pub mission_id : String
  pub key : String
  pub execution_id : String

pub record Document : Type 0 where
  pub records : List RawRecord
  pub by_idempotency : List Link

abbrev pub raw_record : ExecutionRecord → RawRecord
raw_record r = record { content = r; state = state_value r.state }

abbrev pub raw_records : List ExecutionRecord → List RawRecord
raw_records [] = []
raw_records (r ∷ rs) = raw_record r ∷ raw_records rs

abbrev pub links : Dict (String × String) String → List Link
links [] = []
links (((mission_id, key), id) ∷ d) =
    (record { mission_id = mission_id; key = key; execution_id = id }) ∷ links d

-- `snapshot`
unfoldable pub snapshot : Store → Document
snapshot st = record {
  records = raw_records (values st.records);
  by_idempotency = links st.by_idempotency;
}

-- The loop over the records, which raises at a state that is no `ExecutionState`
unfoldable pub restore_records :
    List RawRecord → Dict String ExecutionRecord → Outcome (Dict String ExecutionRecord)
restore_records [] d = returned d
restore_records (raw ∷ raws) d = elim (parse_state raw.state) [
  | none ↦ failed_with (value_error raw.state)
  | some s ↦
      restore_records raws (insert raw.content.execution_id (record raw.content { state = s }) d)
]

-- The loop over the links
unfoldable pub restore_links :
    List Link → Dict (String × String) String → Dict (String × String) String
restore_links [] d = d
restore_links (l ∷ ls) d = restore_links ls (insert (l.mission_id, l.key) l.execution_id d)

abbrev with_links :
    List Link
    → Outcome (Dict String ExecutionRecord)
    → Outcome (Dict String ExecutionRecord × Dict (String × String) String)
with_links ls (failed_with e) = failed_with e
with_links ls (returned d) = returned (d, restore_links ls [])

-- `_restore`, on the empty dicts of a new adapter
unfoldable pub restore :
    Document → Outcome (Dict String ExecutionRecord × Dict (String × String) String)
restore doc = with_links doc.by_idempotency (restore_records doc.records [])

-- A dict has each key once.
module _ {K V : Type 0} ⦃e : Eq K⦄ where
  abbrev pub IsDistinct : Dict K V → Type 0
  IsDistinct [] = Unit
  IsDistinct ((k, v) ∷ d) = (lookup k d ≡ none) × IsDistinct d

  -- No key of the first is a key of the second.
  abbrev Apart : Dict K V → Dict K V → Type 0
  Apart [] d = Unit
  Apart ((k, v) ∷ c) d = (lookup k d ≡ none) × Apart c d

  insert-new : (k : K) (v : V) (d : Dict K V) → lookup k d ≡ none → insert k v d ≡ d ++ (k, v) ∷ []
  unfolding insert lookup
  insert-new k v [] new = refl
  insert-new k v ((j, w) ∷ d) new = ground (arith, new, insert-new k v d)

  lookup-snoc :
      (j k : K) (v : V) (d : Dict K V)
      → lookup j d ≡ none
      → e.same k j ≡ false
      → lookup j (d ++ (k, v) ∷ []) ≡ none
  unfolding lookup
  lookup-snoc j k v [] none_there other = ground (arith, other)
  lookup-snoc j k v ((i, w) ∷ d) none_there other =
      ground (arith, none_there, other, lookup-snoc j k v d)

  Apart-snoc :
      (k : K) (v : V) (c d : Dict K V) → Apart c d → lookup k c ≡ none → Apart c (d ++ (k, v) ∷ [])
  unfolding lookup
  Apart-snoc k v [] d apart new = tt
  Apart-snoc k v ((j, w) ∷ c) d apart new = (
    lookup-snoc j k v d apart.0 (ground (arith, new, e.same_iff k j, e.same_iff j k)),
    Apart-snoc k v c d apart.1 (ground (arith, new)),
  )

  Apart-nil : (c : Dict K V) → Apart c []
  unfolding lookup
  Apart-nil [] = tt
  Apart-nil ((k, v) ∷ c) = (refl, Apart-nil c)

parse_state-value : (s : ExecutionState) → parse_state (state_value s) ≡ some s
unfolding parse_state
parse_state-value starting = refl
parse_state-value running = refl
parse_state-value paused = refl
parse_state-value waiting = refl
parse_state-value cancelling = refl
parse_state-value cancelled = refl
parse_state-value completed = refl
parse_state-value failed = refl

-- Every record is stored under its own id.
abbrev pub IsOwn : Dict String ExecutionRecord → Type 0
IsOwn [] = Unit
IsOwn ((id, r) ∷ d) = (r.execution_id ≡ id) × IsOwn d

restore_records-values :
    (c d : Dict String ExecutionRecord)
    → IsOwn c
    → IsDistinct c
    → Apart c d
    → restore_records (raw_records (values c)) d ≡ returned (d ++ c)
unfolding restore_records values
restore_records-values [] d own distinct apart = ap returned (sym (append-nil d))
restore_records-values ((id, r) ∷ c) d own distinct apart =
    let step : insert r.execution_id r d ≡ d ++ (id, r) ∷ [] =
      ap (λ i. insert i r d) own.0 ∙ insert-new id r d apart.0 in
    let rest =
      restore_records-values c (d ++ (id, r) ∷ []) own.1 distinct.1
        (Apart-snoc id r c d apart.1 distinct.0) in
    rw (restore_records, parse_state-value r.state, step)
      (rest ∙ ap returned (append_assoc d ((id, r) ∷ []) c))

restore_links-links :
    (c d : Dict (String × String) String)
    → IsDistinct c
    → Apart c d
    → restore_links (links c) d ≡ d ++ c
unfolding restore_links
restore_links-links [] d distinct apart = sym (append-nil d)
restore_links-links (((m, key), id) ∷ c) d distinct apart =
    let step : insert (m, key) id d ≡ d ++ ((m, key), id) ∷ [] = insert-new (m, key) id d apart.0 in
    let rest =
      restore_links-links c (d ++ ((m, key), id) ∷ []) distinct.1
        (Apart-snoc (m, key) id c d apart.1 distinct.0) in
    rw (restore_links, step) (rest ∙ append_assoc d (((m, key), id) ∷ []) c)

-- A store whose two dicts have each key once, and whose records stand under their own ids, is
-- restored from its snapshot: both dicts come back as they were, in their order.
pub restore-snapshot :
    (st : Store)
    → IsOwn st.records
    → IsDistinct st.records
    → IsDistinct st.by_idempotency
    → restore (snapshot st) ≡ returned (st.records, st.by_idempotency)
unfolding restore snapshot
restore-snapshot st own distinct distinct_links =
    rw
      (
        restore_records-values st.records [] own distinct (Apart-nil st.records),
        restore_links-links st.by_idempotency [] distinct_links (Apart-nil st.by_idempotency),
      )
      refl
