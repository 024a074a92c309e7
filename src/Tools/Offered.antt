-- ===== src/Tools/Offered.antt =====
-- The tools that a request offers to the model, and the calls that are accepted of it.
use venice_e2ee_proxy.Base.{
  ◌≡◌, ◌≢◌, refl, sym, ap, ◌∙◌, Bool, true, false, not, ◌||◌, none, some, ok, ok_or, ok_or-ok, List,
  [], ◌∷◌, All, arith, inl, inr, Bool-cases, ok_of_bind, ok_of_then, ok_of_ensure, ok-injective,
  Option, Result, subst, denied,
}
use venice_e2ee_proxy.Text.{Text, text_eq, text_eq_iff}
use venice_e2ee_proxy.Chat.{
  ChatToolChoice, ChatToolDefinition, auto, function, no_tool, required, ChatCompletionRequest,
  ChatRequestError,
}
use venice_e2ee_proxy.Chat.Reading.{contains}
use venice_e2ee_proxy.Tools.Emulation.{
  ToolsConfig, check_schema, check_tools, find_tool, offered, ToolLib, Emulation, is_off,
  with_tools, from_request, without_tools, has_no_tool,
}

-- No two tools have a name in common.
unfoldable pub Distinct : List ChatToolDefinition → Type 0
Distinct [] = Unit
Distinct (tool ∷ tools) = (find_tool tool.name tools ≡ none) × Distinct tools

-- The tools that a choice offers, and whether a call is required.
unfoldable pub Selected :
    ChatToolChoice → List ChatToolDefinition → List ChatToolDefinition → Bool → Type 0
Selected auto tools offers require = (offers ≡ tools) × (require ≡ false)
Selected required tools offers require = (offers ≡ tools) × (require ≡ true)
Selected (function name) tools offers require =
    (tool : ChatToolDefinition) × (find_tool name tools ≡ some tool)
    × (offers ≡ tool ∷ [])
    × (require ≡ true)
Selected no_tool tools offers require = ⊥

abbrev Unseen : List Text → List ChatToolDefinition → Type 0
Unseen seen tools = All (λ (tool : ChatToolDefinition). contains seen tool.name ≡ false) tools

differ : ◌≢◌ {A = Bool} false true
differ h = cc

text_eq_swap : (s t : Text) → text_eq s t ≡ false → text_eq t s ≡ false
text_eq_swap s t h = elim (Bool-cases (text_eq t s)) [
  | inl e ↦ absurd (differ (sym h ∙ (text_eq_iff s t).1 (sym ((text_eq_iff t s).0 e))))
  | inr e ↦ e
]

first_false : (a b : Bool) → (a || b) ≡ false → (a ≡ false) × (b ≡ false)
first_false true b h = cc
first_false false b h = (refl, h)

-- Tools that are none of the names seen.
later_names :
    (name : Text) (seen : List Text) (tools : List ChatToolDefinition)
    → Unseen (name ∷ seen) tools
    → (find_tool name tools ≡ none) × Unseen seen tools
unfolding contains find_tool
later_names name seen [] h = (refl, tt)
later_names name seen (tool ∷ tools) (h, hs) =
    let (other, fresh) = first_false (text_eq name tool.name) (contains seen tool.name) h in
    let (none_later, rest) = later_names name seen tools hs in
    (ground (arith, text_eq_swap name tool.name other, none_later), (fresh, rest))

check_tools-Distinct :
    (config : ToolsConfig) (seen : List Text) (tools : List ChatToolDefinition)
    → check_tools config seen tools ≡ ok tt
    → Unseen seen tools × Distinct tools
unfolding check_tools Distinct
check_tools-Distinct config seen [] h = (tt, tt)
check_tools-Distinct config seen (tool ∷ tools) h =
    let (fresh, h1) = ok_of_ensure (not (contains seen tool.name)) _ _ h in
    let (shaped, h2) = ok_of_then (check_schema config tool) _ h1 in
    let (unseen, distinct) = check_tools-Distinct config (tool.name ∷ seen) tools h2 in
    let (later, rest) = later_names tool.name seen tools unseen in
    ((denied (contains seen tool.name) fresh, rest), (later, distinct))

offered-Selected :
    (choice : ChatToolChoice) (tools : List ChatToolDefinition) (r : List ChatToolDefinition × Bool)
    → choice ≢ no_tool
    → offered choice tools ≡ ok r
    → Selected choice tools r.0 r.1
unfolding offered Selected
offered-Selected auto tools r some_choice h = (
  ap (λ (x : List ChatToolDefinition × Bool). x.0) (sym (ok-injective h)),
  ap (λ (x : List ChatToolDefinition × Bool). x.1) (sym (ok-injective h)),
)
offered-Selected required tools r some_choice h = (
  ap (λ (x : List ChatToolDefinition × Bool). x.0) (sym (ok-injective h)),
  ap (λ (x : List ChatToolDefinition × Bool). x.1) (sym (ok-injective h)),
)
offered-Selected (function name) tools r some_choice h =
    let (tool, e, h1) = ok_of_bind (ok_or (find_tool name tools) _) _ h in
    let same = sym (ok-injective h1) in
    (
      tool,
      ok_or-ok (find_tool name tools) _ e,
      ap (λ (x : List ChatToolDefinition × Bool). x.0) same,
      ap (λ (x : List ChatToolDefinition × Bool). x.1) same,
    )
offered-Selected no_tool tools r some_choice h = absurd (some_choice refl)

some-injective : {A : Type 0} {x y : A} → ◌≡◌ {A = Option A} (some x) (some y) → x ≡ y
some-injective h = cc

nothing :
    (emulation : Emulation)
    → ◌≡◌ {A = Result ChatRequestError (Option Emulation)} (ok none) (ok (some emulation))
    → ⊥
nothing emulation h = cc

module _ (lib : ToolLib) (config : ToolsConfig) where
  on-no_tool : (choice : ChatToolChoice) → is_off lib config choice ≡ false → choice ≢ no_tool
  on-no_tool no_tool h = cc
  on-no_tool auto h = λ e. cc
  on-no_tool required h = λ e. cc
  on-no_tool (function name) h = λ e. cc

  with_tools-Selected :
      (request : ChatCompletionRequest) (emulation : Emulation)
      → request.tool_choice ≢ no_tool
      → with_tools lib config request ≡ ok (some emulation)
      → Distinct request.tools
        × Selected request.tool_choice request.tools emulation.tools emulation.require_tool_call
  unfolding with_tools
  with_tools-Selected request emulation some_choice h =
      let (checked, h1) = ok_of_then (check_tools config [] request.tools) _ h in
      let (selected, e, h2) = ok_of_bind (offered request.tool_choice request.tools) _ h1 in
      let (json, e3, h3) = ok_of_bind (ok_or (lib.tools_to_string selected.0) _) _ h2 in
      let same = some-injective (ok-injective h3) in
      (
        (check_tools-Distinct config [] request.tools checked).1,
        subst
            (λ (e : Emulation).
              Selected request.tool_choice request.tools e.tools e.require_tool_call)
            same (offered-Selected request.tool_choice request.tools selected some_choice e),
      )

  no_emulation :
      (choice : ChatToolChoice) (emulation : Emulation)
      → without_tools choice ≡ ok (some emulation)
      → ⊥
  unfolding without_tools
  no_emulation auto emulation h = cc
  no_emulation no_tool emulation h = cc
  no_emulation required emulation h = cc
  no_emulation (function name) emulation h = cc

  -- Where tools are emulated for a request, no two of its tools have a name in common, and what is
  -- offered to the model is all of them, or the one that the choice names, with a call required
  -- unless the choice is automatic.
  pub from_request-Selected :
      (request : ChatCompletionRequest) (emulation : Emulation)
      → from_request lib config request ≡ ok (some emulation)
      → Distinct request.tools
        × Selected request.tool_choice request.tools emulation.tools emulation.require_tool_call
  unfolding from_request
  from_request-Selected request emulation h =
      elim (Bool-cases (is_off lib config request.tool_choice)) [
        | inl off ↦ absurd (nothing emulation (rw (off) at h))
        | inr on ↦ elim (Bool-cases (has_no_tool lib request.tools)) [
          | inl bare ↦ absurd (no_emulation request.tool_choice emulation (rw (on, bare) at h))
          | inr tools ↦
              with_tools-Selected request emulation (on-no_tool request.tool_choice on)
                (rw (on, tools) at h)
        ]
      ]
