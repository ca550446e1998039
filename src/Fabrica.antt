-- ===== src/Fabrica.antt =====
-- The tool broker (legion_fabrica/fabrica.py): declared tools, their registration and their calls.
pub mod Declared
mod Tests
use pantheon_legion.Base.{
  text_eq, String, Bool, ◌||◌, not, Option, none, some, List, [], ◌∷◌, if◌then◌else◌, contains,
}
use pantheon_legion.Base.Dict.{Dict, lookup, insert}
use pantheon_legion.Base.Json.{Value, obj, Fields}
use pantheon_legion.Base.Text.{is_empty}

-- A handler is code of the caller: it returns a value, or raises.
pub data Handled : Type 0 where
  gave : Value → Handled
  threw : String → Handled

pub record ToolDefinition : Type 0 where
  pub capability : String
  pub side_effect_class : String
  pub handler : Fields → Handled
  pub filesystem_policy : String
  pub network_policy : String
  pub credential_policy : String

pub record ToolInvocation : Type 0 where
  pub invocation_id : String
  pub mission_id : String
  pub capability : String
  pub arguments : Fields
  pub authorization_id : String
  pub correlation_id : String

pub record ToolResult : Type 0 where
  pub invocation_id : String
  pub capability : String
  pub output : Fields

pub data ToolError : Type 0 where
  fabrica_error unknown_tool handler_error : String → ToolError

pub data Answer (A : Type 0) : Type 0 where
  done : A → Answer A
  refused : ToolError → Answer A

-- The dict `_tools`
abbrev pub Tools : Type 0
Tools = Dict String ToolDefinition

abbrev pub side_effect_classes : List String
side_effect_classes =
    "READ" ∷ "MUTATION" ∷ "EXTERNAL_SIDE_EFFECT" ∷ "CREDENTIAL_USE" ∷ "PRODUCTION_ACCESS" ∷ []

abbrev pub is_some : {A : Type 0} → Option A → Bool
is_some none = Bool.false
is_some (some a) = Bool.true

-- `capability in self._tools`
abbrev pub is_declared : String → Tools → Bool
is_declared capability tools = is_some (lookup capability tools)

-- `register`, which gives the dict that it leaves
unfoldable pub register : ToolDefinition → Tools → Answer Tools
register d tools =
    if is_empty d.capability
    then refused (fabrica_error "TOOL_CAPABILITY_REQUIRED")
    else if not (contains side_effect_classes d.side_effect_class)
    then refused (fabrica_error "TOOL_SIDE_EFFECT_CLASS_INVALID")
    else if is_declared d.capability tools
    then refused (fabrica_error "TOOL_CAPABILITY_DUPLICATE")
    else done (insert d.capability d tools)

-- `resolve`
unfoldable pub resolve : String → Tools → Answer ToolDefinition
resolve capability tools = elim (lookup capability tools) [
  | none ↦ refused (unknown_tool "TOOL_CAPABILITY_UNDECLARED")
  | some d ↦ done d
]

-- What becomes of the handler's answer
unfoldable pub tool_result : ToolInvocation → Handled → Answer ToolResult
tool_result i (threw s) = refused (handler_error s)
tool_result i (gave (obj output)) =
    done (record { invocation_id = i.invocation_id; capability = i.capability; output = output })
tool_result i (gave _) = refused (fabrica_error "TOOL_RESULT_INVALID")

unfoldable pub call_tool : ToolInvocation → Answer ToolDefinition → Answer ToolResult
call_tool i (refused e) = refused e
call_tool i (done d) = tool_result i (d.handler i.arguments)

-- `invoke`
unfoldable pub invoke : ToolInvocation → Tools → Answer ToolResult
invoke i tools =
    if is_empty i.authorization_id || is_empty i.correlation_id
    then refused (fabrica_error "TOOL_AUTHORIZATION_REQUIRED")
    else call_tool i (resolve i.capability tools)
