-- ===== src/Kernel/Payload.antt =====
-- `_payload_error` and the predicates that it calls, on payloads of any JSON shape.
use pantheon_legion.Base.{
  String, Bool, true, false, ◌&&◌, not, Option, none, some, List, [], ◌∷◌, if◌then◌else◌, contains,
  ltb,
}
use pantheon_legion.Base.Lists.{all}
use pantheon_legion.Base.Text.{is_empty, strip, is_uuid}
use pantheon_legion.Base.Json.{
  Value, null, str, arr, obj, Fields, get, keys, elements, is_object, bounded_string, string_in,
  has_all, within,
}
use pantheon_legion.Kernel.Types.{
  CommandType, update_objective, add_constraint, remove_constraint, set_roe, add_participant,
  remove_participant, suspend, request_action, request_investigation,
}
use Prim.Native.String.{count}

-- The test of a field that must be there is `false` on a missing key, which the checks before it
-- rule out; of an optional field it is `true`.
abbrev needed : Option Value → (Value → Bool) → Bool
needed none p = false
needed (some v) p = p v

abbrev optional : Option Value → (Value → Bool) → Bool
optional none p = true
optional (some v) p = p v

-- `_uuid_string`
unfoldable pub uuid_string : Value → Bool
uuid_string (str s) = is_uuid s
uuid_string _ = false

-- `_object_has_only`
unfoldable pub object_has_only : Value → (required allowed : List String) → Bool
object_has_only (obj fs) required allowed = has_all required fs && within (keys fs) allowed
object_has_only _ required allowed = false

abbrev pub fields_of : Value → Fields
fields_of (obj fs) = fs
fields_of _ = Fields.end

-- `len(value) == len(set(value))`: no text stands twice
abbrev pub distinct : List String → Bool
distinct [] = true
distinct (x ∷ xs) = not (contains xs x) && distinct xs

abbrev pub texts : List Value → List String
texts [] = []
texts (str s ∷ vs) = s ∷ texts vs
texts (_ ∷ vs) = texts vs

-- `_valid_capability_list`; a missing key and an explicit null are both `None`
unfoldable pub valid_capability_list : Option Value → Bool
unfolding bounded_string
valid_capability_list none = true
valid_capability_list (some null) = true
valid_capability_list (some (arr vs)) =
    all (λ v. bounded_string v 1 200) (elements vs) && distinct (texts (elements vs))
valid_capability_list (some _) = false

-- `_valid_roe_payload`
unfoldable pub valid_roe_payload : Fields → Bool
unfolding bounded_string string_in valid_capability_list
valid_roe_payload p =
    needed (get p "level")
      (λ v. string_in v ("OBSERVE" ∷ "RECOMMEND" ∷ "REVIEW" ∷ "BOUNDED_AUTONOMOUS" ∷ []))
    && needed (get p "reason") (λ v. bounded_string v 1 5000)
    && valid_capability_list (get p "allowed_capabilities")
    && valid_capability_list (get p "denied_capabilities")

-- `_valid_constraint_payload`
unfoldable pub valid_constraint_payload : Fields → Bool
unfolding bounded_string string_in object_has_only uuid_string
valid_constraint_payload p = needed (get p "constraint") λ c.
    let fs = fields_of c in
    object_has_only c ("id" ∷ "text" ∷ []) ("id" ∷ "text" ∷ "severity" ∷ [])
    && needed (get fs "id") uuid_string
    && needed (get fs "text") (λ v. bounded_string v 1 5000)
    && optional (get fs "severity")
        (λ v. string_in v ("REQUIRED" ∷ "PREFERRED" ∷ "PROHIBITED" ∷ []))

abbrev pub participant_roles : List String
participant_roles = "OWNER" ∷ "OPERATOR" ∷ "OBSERVER" ∷ "APPROVER" ∷ "WORKLOAD" ∷ "EXTERNAL" ∷ []

-- `_valid_participant_payload`
unfoldable pub valid_participant_payload : Fields → Bool
unfolding bounded_string string_in object_has_only
valid_participant_payload p = needed (get p "participant") λ c.
    let fs = fields_of c in
    object_has_only c ("principal" ∷ "role" ∷ []) ("principal" ∷ "role" ∷ "scope" ∷ [])
    && needed (get fs "principal") (λ q.
      let gs = fields_of q in
      object_has_only q ("type" ∷ "subject" ∷ []) ("type" ∷ "subject" ∷ "issuer" ∷ [])
      && needed (get gs "type")
          (λ v. string_in v ("HUMAN" ∷ "WORKLOAD" ∷ "SYSTEM" ∷ "EXTERNAL" ∷ []))
      && needed (get gs "subject") (λ v. bounded_string v 1 512)
      && optional (get gs "issuer") (λ v. bounded_string v 0 500))
    && needed (get fs "role") (λ v. string_in v participant_roles)
    && optional (get fs "scope") (λ v. bounded_string v 0 2000)

-- `_valid_action_payload`
unfoldable pub valid_action_payload : Fields → Bool
unfolding bounded_string string_in uuid_string
valid_action_payload p =
    needed (get p "action_id") uuid_string
    && needed (get p "capability") (λ v. bounded_string v 1 200)
    && needed (get p "arguments") is_object
    && optional (get p "target") (λ v. bounded_string v 0 1000)
    && optional (get p "side_effect_class")
        (λ v. string_in v ("READ" ∷ "ANALYSIS" ∷ "MUTATION" ∷ "EXTERNAL_SIDE_EFFECT" ∷ []))

-- The table `fields` of `_payload_error`: the required and the allowed keys.
abbrev pub payload_fields : CommandType → List String × List String
payload_fields update_objective = ("objective" ∷ [], "objective" ∷ [])
payload_fields add_constraint = ("constraint" ∷ [], "constraint" ∷ [])
payload_fields remove_constraint = ("constraint_id" ∷ [], "constraint_id" ∷ [])
payload_fields set_roe = (
  "level" ∷ "reason" ∷ [],
  "level" ∷ "reason" ∷ "allowed_capabilities" ∷ "denied_capabilities" ∷ [],
)
payload_fields add_participant = ("participant" ∷ [], "participant" ∷ [])
payload_fields remove_participant = ("subject" ∷ [], "subject" ∷ [])
payload_fields suspend = ("reason" ∷ [], "reason" ∷ [])
payload_fields request_action = (
  "action_id" ∷ "capability" ∷ "arguments" ∷ [],
  "action_id" ∷ "capability" ∷ "arguments" ∷ "target" ∷ "side_effect_class" ∷ [],
)
payload_fields request_investigation = ("profile" ∷ [], "profile" ∷ [])
payload_fields _ = ([], [])

abbrev invalid : String
invalid = "INVALID_COMMAND_PAYLOAD"

abbrev missing_field_error : CommandType → String
missing_field_error suspend = "SUSPENSION_REASON_REQUIRED"
missing_field_error _ = invalid

abbrev error_unless : Bool → Option String
error_unless b = if b then none else some invalid

-- The tests on a suspension's reason.
unfoldable pub suspension_error : Option Value → Option String
suspension_error (some (str s)) =
    if is_empty (strip s)
    then some "SUSPENSION_REASON_REQUIRED"
    else if ltb 5000 (count s)
    then some invalid
    else none
suspension_error _ = some "SUSPENSION_REASON_REQUIRED"

-- The tests of `_payload_error` on the values of one command's keys.
unfoldable pub value_error : CommandType → Fields → Option String
unfolding valid_roe_payload valid_participant_payload valid_action_payload valid_constraint_payload
    suspension_error string_in bounded_string uuid_string
value_error set_roe p = error_unless (valid_roe_payload p)
value_error add_participant p = error_unless (valid_participant_payload p)
value_error request_investigation p =
    error_unless (needed (get p "profile") (λ v. string_in v ("READ_ONLY_CORPUS_V1" ∷ [])))
value_error request_action p = error_unless (valid_action_payload p)
value_error update_objective p =
    error_unless (needed (get p "objective") (λ v. bounded_string v 1 10000))
value_error add_constraint p = error_unless (valid_constraint_payload p)
value_error remove_constraint p = error_unless (needed (get p "constraint_id") uuid_string)
value_error remove_participant p =
    error_unless (needed (get p "subject") (λ v. bounded_string v 1 512))
value_error suspend p = suspension_error (get p "reason")
value_error _ p = none

-- `_payload_error`
unfoldable pub payload_error : CommandType → Value → Option String
unfolding value_error
payload_error c (obj p) =
    let (required, allowed) = payload_fields c in
    if not (within (keys p) allowed)
    then some invalid
    else if not (has_all required p)
    then some (missing_field_error c)
    else value_error c p
payload_error c _ = some invalid
