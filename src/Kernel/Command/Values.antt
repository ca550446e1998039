-- ===== src/Kernel/Command/Values.antt =====
-- What the commands read from a payload and make of it: texts, participants, documents.
use pantheon_legion.Base.{
  text_eq, String, Bool, ◌&&◌, not, Option, none, some, List, [], ◌∷◌, ◌==◌, if◌then◌else◌,
  contains,
}
use pantheon_legion.Base.Json.{Value, null, str, arr, obj, Fields, end, field, get, keys, elements}
use pantheon_legion.Base.Text.{is_empty}
use pantheon_legion.Kernel.Types.{
  parse_principal_type, principal_type_value, Constraint, Participant, Action,
}
use pantheon_legion.Kernel.State.{
  key_error, value_error, type_error, Exec, pure, raise, or_raise, ◌>>=◌,
}
use pantheon_legion.Kernel.Payload.{participant_roles, texts, fields_of}
use pantheon_legion.Kernel.Journal.{one, str_or_null}

-- `payload[name]`
abbrev pub value_at : Fields → String → Exec Value
value_at fs name = or_raise (get fs name) (key_error name)

abbrev pub text_of : Value → Exec String
text_of (str s) = pure s
text_of _ = raise (type_error "text expected")

-- `str(payload[name])`; after `_payload_error` there are only texts here
unfoldable pub text_at : Fields → String → Exec String
text_at fs name = do text_of (← value_at fs name)

abbrev pub object_of : Value → Exec Fields
object_of (obj fs) = pure fs
object_of _ = raise (type_error "object expected")

unfoldable pub object_at : Fields → String → Exec Fields
object_at fs name = do object_of (← value_at fs name)

-- `frozenset(payload.get(name, []))`: a missing key is the empty set, and `None` is not iterable.
unfoldable pub capability_set : Option Value → Exec (List String)
capability_set none = pure []
capability_set (some (arr vs)) = pure (texts (elements vs))
capability_set (some (obj fs)) = pure (keys fs)
capability_set (some _) = raise (type_error "object is not iterable")

abbrev pub optional_text : Option Value → Exec (Option String)
optional_text none = pure none
optional_text (some null) = pure none
optional_text (some (str s)) = pure (some s)
optional_text (some _) = raise (type_error "participant scope must be a string")

-- `isinstance(principal, dict) and isinstance(principal.get("subject"), str)`
abbrev pub subject_of : Value → Option String
subject_of (obj fs) = elim (get fs "subject") [ some (str s) ↦ some s | _ ↦ none ]
subject_of _ = none

-- `_make_participant`
unfoldable pub make_participant : Fields → Exec Participant
make_participant payload = do
  raw ← object_at payload "participant"
  principal ← value_at raw "principal"
  subject ←
      or_raise (subject_of principal) (value_error "participant principal must include a subject")
  if is_empty subject
      then raise (value_error "participant principal subject must not be empty")
      else do
        scope ← optional_text (get raw "scope")
        role ← text_at raw "role"
        if not (contains participant_roles role)
            then raise (value_error "Unsupported participant role")
            else do
              kind ← text_at (fields_of principal) "type"
              type ← or_raise (parse_principal_type kind) (value_error "not a valid PrincipalType")
              pure (record {
                principal = record { type = type; subject = subject; roles = [] };
                role = role;
                scope = scope;
              })

abbrev pub same_subject : String → Participant → Bool
same_subject subject p = p.principal.subject == subject

-- The first participant with the subject is replaced, else the new one stands at the end.
unfoldable pub put_participant : Participant → List Participant → List Participant
put_participant p [] = p ∷ []
put_participant p (q ∷ qs) =
    if same_subject p.principal.subject q then p ∷ qs else q ∷ put_participant p qs

abbrev pub participant_fields : Participant → Fields
participant_fields p = one "participant" (
    obj (
      field "subject" (str p.principal.subject) (
        field "type" (str (principal_type_value p.principal.type))
          (field "role" (str p.role) (one "scope" (str_or_null p.scope))))))

-- `[item for item in items if keep(item)]`
abbrev pub keep_if : {A : Type 0} → (A → Bool) → List A → List A
keep_if keep [] = []
keep_if keep (x ∷ xs) = let rest = keep_if keep xs in if keep x then x ∷ rest else rest

abbrev pub conflicts : String → Constraint → Bool
conflicts text c = c.severity == "REQUIRED" && c.text == text

abbrev pub optional_target : Option Value → Option String
optional_target (some (str s)) = some s
optional_target _ = none

abbrev pub fields_or_empty : Option Value → Fields
fields_or_empty (some (obj fs)) = fs
fields_or_empty _ = end

abbrev pub text_or : Option Value → String → String
text_or (some (str s)) default = s
text_or _ default = default

-- The document of `_action_hash`
unfoldable pub action_document : Action → Value
action_document a = obj (
    field "arguments" (obj a.arguments) (
      field "capability" (str a.capability) (
        field "id" (str a.id) (
          field "side_effect_class" (str a.side_effect_class)
            (one "target" (str_or_null a.target))))))
