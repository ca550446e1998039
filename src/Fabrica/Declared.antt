-- ===== src/Fabrica/Declared.antt =====
-- Only declared tools are called: what registration puts in, and what an answered call had.
use pantheon_legion.Base.{
  List, [], ◌∷◌, text_eq, ◌≡◌, ◌≢◌, refl, sym, ap, ◌∙◌, inl, inr, String, true, false, ◌||◌, none,
  some, ◌==◌, if◌then◌else◌, contains, Bool-cases, Option-cases, arith, eq_iff,
}
use pantheon_legion.Base.Dict.{lookup, insert, lookup-insert, lookup-insert_self, lookup-insert_ne}
use pantheon_legion.Base.Json.{null, bool, number, str, arr, obj}
use pantheon_legion.Base.Text.{is_empty}
use pantheon_legion.Fabrica.{
  Handled, gave, threw, fabrica_error, ToolDefinition, ToolInvocation, ToolResult, Answer, done,
  refused, Tools, side_effect_classes, register, resolve, tool_result, call_tool, invoke,
}

-- Every tool stands under its own capability, which is not empty, and has a known class.
pub record IsDeclared (tools : Tools) : Type 0 where
  pub declared :
      (c : String) (d : ToolDefinition)
      → lookup c tools ≡ some d
      → (d.capability ≡ c)
        × (is_empty d.capability ≡ false)
        × (contains side_effect_classes d.side_effect_class ≡ true)

-- What a registration that is not refused has checked.
record Registered (d : ToolDefinition) (tools tools' : Tools) : Type 0 where
  named : is_empty d.capability ≡ false
  classed : contains side_effect_classes d.side_effect_class ≡ true
  new : lookup d.capability tools ≡ none
  written : tools' ≡ insert d.capability d tools

register-Registered :
    (d : ToolDefinition) (tools tools' : Tools)
    → register d tools ≡ done tools'
    → Registered d tools tools'
unfolding register
register-Registered d tools tools' same = elim (Option-cases (lookup d.capability tools)) [
  | inl new ↦ record {
    named = ground (arith, rw new at same);
    classed = ground (arith, rw new at same);
    new = new;
    written = ground (arith, rw new at same);
  }
  | inr (e, found) ↦ absurd (ground (arith, rw found at same))
]

-- A registration that is not refused adds the tool under a capability that no tool had, so that it
-- is the one that resolves there, and leaves all other capabilities as they were; and where every
-- tool was declared under its own capability with a known class, this still holds.
pub register-resolve :
    (d : ToolDefinition) (tools tools' : Tools)
    → IsDeclared tools
    → register d tools ≡ done tools'
    → IsDeclared tools'
      × (lookup d.capability tools ≡ none)
      × (resolve d.capability tools' ≡ done d)
      × ((c : String) → d.capability ≢ c → resolve c tools' ≡ resolve c tools)
unfolding resolve
register-resolve d tools tools' known same =
    let r = register-Registered d tools tools' same in
    (
      record {
        declared = λ c e found. elim (Bool-cases (d.capability == c)) [
          | inl is ↦
              let one : d ≡ e =
                ground (arith, is, r.written, lookup-insert d.capability c d tools, found) in
              (
                ap (λ (x : ToolDefinition). x.capability) (sym one) ∙ (eq_iff d.capability c).0 is,
                rw (sym one) r.named,
                rw (sym one) r.classed,
              )
          | inr other ↦
              known.declared c e
                (ground (arith, other, r.written, lookup-insert d.capability c d tools, found))
        ];
      },
      r.new,
      rw (r.written, resolve, lookup-insert_self d.capability d tools) refl,
      λ c other. rw (r.written, resolve, lookup-insert_ne d.capability c d tools other) refl,
    )

tool_result-done :
    (i : ToolInvocation) (r : ToolResult) (h : Handled)
    → tool_result i h ≡ done r
    → (r.invocation_id ≡ i.invocation_id)
      × (r.capability ≡ i.capability)
      × (h ≡ gave (obj r.output))
unfolding tool_result
tool_result-done i r (threw s) same = absurd (ground (arith, same))
tool_result-done i r (gave (obj output)) same =
    (ground (arith, same), ground (arith, same), ground (arith, same))
tool_result-done i r (gave null) same = absurd (ground (arith, same))
tool_result-done i r (gave (bool b)) same = absurd (ground (arith, same))
tool_result-done i r (gave (number n)) same = absurd (ground (arith, same))
tool_result-done i r (gave (str s)) same = absurd (ground (arith, same))
tool_result-done i r (gave (arr vs)) same = absurd (ground (arith, same))

-- The dict behind a registration that may be refused
unfoldable pub kept_or : Tools → Answer Tools → Tools
kept_or tools (refused e) = tools
kept_or tools (done tools') = tools'

-- The dict behind registrations, made one after the other
unfoldable pub register_all : List ToolDefinition → Tools → Tools
unfolding kept_or
register_all [] tools = tools
register_all (d ∷ ds) tools = register_all ds (kept_or tools (register d tools))

-- A definition in a list of them
pub data IsOneOf (d : ToolDefinition) : List ToolDefinition → Type 0 where
  here : {ds : List ToolDefinition} → IsOneOf d (d ∷ ds)
  there : {e : ToolDefinition} {ds : List ToolDefinition} → IsOneOf d ds → IsOneOf d (e ∷ ds)

-- Every tool stands under its own capability, has a known class and is one of `ds`.
record ComeFrom (ds : List ToolDefinition) (tools : Tools) : Type 0 where
  known : IsDeclared tools
  listed : (c : String) (d : ToolDefinition) → lookup c tools ≡ some d → IsOneOf d ds

kept_or-ComeFrom :
    (ds : List ToolDefinition) (d : ToolDefinition) (tools : Tools)
    → IsOneOf d ds
    → ComeFrom ds tools
    → (a : Answer Tools) → register d tools ≡ a
    → ComeFrom ds (kept_or tools a)
unfolding kept_or
kept_or-ComeFrom ds d tools m h (refused e) same = h
kept_or-ComeFrom ds d tools m h (done tools') same =
    let r = register-Registered d tools tools' same in
    record {
      known = (register-resolve d tools tools' h.known same).0;
      listed = λ c e found. elim (Bool-cases (d.capability == c)) [
        | inl is ↦
            let one : e ≡ d =
              ground (arith, is, r.written, lookup-insert d.capability c d tools, found) in
            rw one m
        | inr other ↦
            h.listed c e
              (ground (arith, other, r.written, lookup-insert d.capability c d tools, found))
      ];
    }

register_all-ComeFrom :
    (all ds : List ToolDefinition) (tools : Tools)
    → ((d : ToolDefinition) → IsOneOf d ds → IsOneOf d all)
    → ComeFrom all tools
    → ComeFrom all (register_all ds tools)
unfolding register_all
register_all-ComeFrom all [] tools within h = h
register_all-ComeFrom all (d ∷ ds) tools within h =
    register_all-ComeFrom all ds (kept_or tools (register d tools)) (λ e m. within e (there m))
      (kept_or-ComeFrom all d tools (within d here) h (register d tools) refl)

none-ComeFrom : (ds : List ToolDefinition) → ComeFrom ds []
unfolding lookup
none-ComeFrom ds = record {
  known = record { declared = λ c d found. absurd (ground (arith, found)) };
  listed = λ c d found. absurd (ground (arith, found));
}

-- In a broker that started empty and took any registrations, accepted or refused, a call that is
-- answered bears an authorization id and a correlation id that are not empty, and its output is
-- what the handler of one of the registered definitions, of just that capability and of one of the
-- five known side-effect classes, gave for the call's arguments; the answer bears the id and the
-- capability of the call.
pub invoke-registered :
    (ds : List ToolDefinition) (i : ToolInvocation) (r : ToolResult)
    → invoke i (register_all ds []) ≡ done r
    → (is_empty i.authorization_id ≡ false)
      × (is_empty i.correlation_id ≡ false)
      × (r.invocation_id ≡ i.invocation_id)
      × (r.capability ≡ i.capability)
      × (d : ToolDefinition) × IsOneOf d ds
      × (d.capability ≡ i.capability)
      × (contains side_effect_classes d.side_effect_class ≡ true)
      × (d.handler i.arguments ≡ gave (obj r.output))
unfolding invoke resolve call_tool
invoke-registered ds i r same = elim (Option-cases (lookup i.capability (register_all ds []))) [
  | inl missing ↦ absurd (ground (arith, rw (missing, invoke, resolve) at same))
  | inr (d, found) ↦
      let (a, c, answered) =
        guards (tool_result i (d.handler i.arguments)) (rw (found, invoke, resolve) at same) in
      let (id, capability, output) = tool_result-done i r (d.handler i.arguments) answered in
      let come = register_all-ComeFrom ds ds [] (λ e m. m) (none-ComeFrom ds) in
      let (own, named, classed) = come.known.declared i.capability d found in
      (a, c, id, capability, d, come.listed i.capability d found, own, classed, output)
]
  where
    guards :
        (x : Answer ToolResult)
        → (if is_empty i.authorization_id || is_empty i.correlation_id
            then refused (fabrica_error "TOOL_AUTHORIZATION_REQUIRED")
            else x)
          ≡ done r
        → (is_empty i.authorization_id ≡ false) × (is_empty i.correlation_id ≡ false) × (x ≡ done r)
    guards x h = (ground (arith, h), ground (arith, h), ground (arith, h))
