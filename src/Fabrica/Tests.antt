-- ===== src/Fabrica/Tests.antt =====
-- A broker with one tool, and the theorems at it.
use pantheon_legion.Base.{
  text_eq, ◌≡◌, ◌≢◌, refl, String, true, false, none, [], ◌∷◌, arith, contains,
}
use pantheon_legion.Base.Dict.{lookup, insert}
use pantheon_legion.Base.Json.{end, field, str, obj}
use pantheon_legion.Base.Text.{is_empty}
use pantheon_legion.Fabrica.{
  gave, ToolDefinition, ToolInvocation, ToolResult, done, Tools, side_effect_classes, register,
  resolve, tool_result, call_tool, invoke,
}
use pantheon_legion.Fabrica.Declared.{
  IsDeclared, IsOneOf, register-resolve, kept_or, register_all, invoke-registered,
}

abbrev reader : ToolDefinition
reader = record {
  capability = "file.read";
  side_effect_class = "READ";
  handler = λ arguments. gave (obj arguments);
  filesystem_policy = "none";
  network_policy = "none";
  credential_policy = "none";
}

abbrev no_tools : Tools
no_tools = []

abbrev tools : Tools
tools = ("file.read", reader) ∷ []

abbrev reading : ToolInvocation
reading = record {
  invocation_id = "i1";
  mission_id = "m1";
  capability = "file.read";
  arguments = field "path" (str "a.txt") end;
  authorization_id = "d1";
  correlation_id = "x1";
}

abbrev reading_result : ToolResult
reading_result = record {
  invocation_id = "i1";
  capability = "file.read";
  output = field "path" (str "a.txt") end;
}

none-IsDeclared : IsDeclared no_tools
unfolding lookup
none-IsDeclared = record { declared = λ c d found. absurd (ground (arith, found)) }

register_runs : register reader no_tools ≡ done tools
unfolding register lookup insert
register_runs = refl

invoke_runs : invoke reading tools ≡ done reading_result
unfolding invoke resolve call_tool tool_result lookup
invoke_runs = refl

register-resolve_example :
    IsDeclared tools
    × (lookup reader.capability no_tools ≡ none)
    × (resolve reader.capability tools ≡ done reader)
    × ((c : String) → reader.capability ≢ c → resolve c tools ≡ resolve c no_tools)
register-resolve_example = register-resolve reader no_tools tools none-IsDeclared register_runs

invoke_registered_runs :
    invoke reading (register_all (reader ∷ reader ∷ []) []) ≡ done reading_result
unfolding invoke resolve call_tool tool_result register_all kept_or register lookup insert
invoke_registered_runs = refl

invoke-registered_example :
    (is_empty reading.authorization_id ≡ false)
    × (is_empty reading.correlation_id ≡ false)
    × (reading_result.invocation_id ≡ reading.invocation_id)
    × (reading_result.capability ≡ reading.capability)
    × (d : ToolDefinition) × IsOneOf d (reader ∷ reader ∷ [])
    × (d.capability ≡ reading.capability)
    × (contains side_effect_classes d.side_effect_class ≡ true)
    × (d.handler reading.arguments ≡ gave (obj reading_result.output))
invoke-registered_example =
    invoke-registered (reader ∷ reader ∷ []) reading reading_result invoke_registered_runs
