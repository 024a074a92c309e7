-- ===== src/Chat/Roles.antt =====
-- The roles and the number of the normalised messages.
use venice_e2ee_proxy.Base.{
  ℕ, suc, ◌≡◌, refl, sym, ap, subst, ◌∙◌, inl, inr, true, not, ok, ok_or, List, [], ◌∷◌, All,
  length, Bool-cases, ok_of_bind, ok_of_then, ok_of_ensure, ok-injective, ok_or-ok, arith, some,
  ◌≤◌,
}
use venice_e2ee_proxy.Text.{Text, text, text_eq, text_eq_iff}
use venice_e2ee_proxy.Json.{Value, Fields, as_object, as_array, items, Items, nil, cons, array}
use venice_e2ee_proxy.Chat.{NormalizedChatMessage, Serde}
use venice_e2ee_proxy.Chat.Reading.{contains, reject_unknown_fields, required_non_empty_string}
use venice_e2ee_proxy.Chat.Messages.{
  normalize_messages, normalize_from, normalize_message, by_role, normalize_plain_message,
  normalize_assistant_message, normalize_tool_result_message, required_content_text,
  optional_content_text, normalize_assistant_tool_calls, no_items,
}
use venice_e2ee_proxy.Chat.Checks.{HasUpstreamRole, upstream_roles}

module _ (serde : Serde) (index : ℕ) (m : Fields) where
  plain-role :
      (role : Text) (message : NormalizedChatMessage)
      → normalize_plain_message serde index m role ≡ ok message
      → message.role ≡ role
  unfolding normalize_plain_message
  plain-role role message h =
      let (done, h1) = ok_of_then (reject_unknown_fields m _) _ h in
      let (content, e, h2) = ok_of_bind (required_content_text serde m index) _ h1 in
      ap (λ (x : NormalizedChatMessage). x.role) (sym (ok-injective h2))

  assistant-role :
      (message : NormalizedChatMessage)
      → normalize_assistant_message serde index m ≡ ok message
      → message.role ≡ text "assistant"
  unfolding normalize_assistant_message
  assistant-role message h =
      let (done, h1) = ok_of_then (reject_unknown_fields m _) _ h in
      let (content, e, h2) = ok_of_bind (optional_content_text serde m index true) _ h1 in
      let (calls, e3, h3) = ok_of_bind (normalize_assistant_tool_calls serde _) _ h2 in
      let (some_text, h4) = ok_of_ensure _ _ _ h3 in
      ap (λ (x : NormalizedChatMessage). x.role) (sym (ok-injective h4))

  tool-role :
      (message : NormalizedChatMessage)
      → normalize_tool_result_message serde index m ≡ ok message
      → message.role ≡ text "user"
  unfolding normalize_tool_result_message
  tool-role message h =
      let (done, h1) = ok_of_then (reject_unknown_fields m _) _ h in
      let (id, e, h2) = ok_of_bind (required_non_empty_string m (text "tool_call_id")) _ h1 in
      let (content, e3, h3) = ok_of_bind (required_content_text serde m index) _ h2 in
      ap (λ (x : NormalizedChatMessage). x.role) (sym (ok-injective h3))

  known :
      (role : Text) (message : NormalizedChatMessage)
      → contains upstream_roles role ≡ true
      → message.role ≡ role
      → HasUpstreamRole message
  known role message h e = subst (λ r. contains upstream_roles r ≡ true) (sym e) h

  plain_known :
      (role fixed : Text) (message : NormalizedChatMessage)
      → text_eq role fixed ≡ true
      → contains upstream_roles fixed ≡ true
      → normalize_plain_message serde index m role ≡ ok message
      → HasUpstreamRole message
  plain_known role fixed message same listed h =
      known fixed message listed (plain-role role message h ∙ (text_eq_iff role fixed).0 same)

  by_role-HasUpstreamRole :
      (role : Text) (message : NormalizedChatMessage)
      → by_role serde index m role ≡ ok message
      → HasUpstreamRole message
  unfolding by_role contains text_eq
  by_role-HasUpstreamRole role message h = elim (Bool-cases (text_eq role (text "system"))) [
    | inl a ↦ plain_known role (text "system") message a refl (ground (arith, a, h))
    | inr a ↦ elim (Bool-cases (text_eq role (text "developer"))) [
      | inl b ↦ plain_known role (text "developer") message b refl (ground (arith, a, b, h))
      | inr b ↦ elim (Bool-cases (text_eq role (text "user"))) [
        | inl c ↦ plain_known role (text "user") message c refl (ground (arith, a, b, c, h))
        | inr c ↦ elim (Bool-cases (text_eq role (text "assistant"))) [
          | inl d ↦
              known (text "assistant") message refl
                (assistant-role message (ground (arith, a, b, c, d, h)))
          | inr d ↦ elim (Bool-cases (text_eq role (text "tool"))) [
            | inl e ↦
                known (text "user") message refl
                  (tool-role message (ground (arith, a, b, c, d, e, h)))
            | inr e ↦ ground (arith, a, b, c, d, e, h)
          ]
        ]
      ]
    ]
  ]

module _ (serde : Serde) where
  normalize_message-HasUpstreamRole :
      (index : ℕ) (value : Value) (message : NormalizedChatMessage)
      → normalize_message serde index value ≡ ok message
      → HasUpstreamRole message
  unfolding normalize_message
  normalize_message-HasUpstreamRole index value message h =
      let (m, e, h1) = ok_of_bind (ok_or (as_object value) _) _ h in
      let (role, e2, h2) = ok_of_bind (required_non_empty_string m (text "role")) _ h1 in
      by_role-HasUpstreamRole serde index m role message h2

  normalize_from-ok :
      (index : ℕ) (values : List Value) (messages : List NormalizedChatMessage)
      → normalize_from serde index values ≡ ok messages
      → All HasUpstreamRole messages × (length messages ≡ length values)
  unfolding normalize_from
  normalize_from-ok index [] messages h =
      subst (λ (ms : List NormalizedChatMessage). All HasUpstreamRole ms × (length ms ≡ 0))
        (ok-injective h) (tt, refl)
  normalize_from-ok index (value ∷ values) messages h =
      let (one, e, h1) = ok_of_bind (normalize_message serde index value) _ h in
      let (rest, e2, h2) = ok_of_bind (normalize_from serde (suc index) values) _ h1 in
      let (roles, same) = normalize_from-ok (suc index) values rest e2 in
      subst
        (λ (ms : List NormalizedChatMessage).
          All HasUpstreamRole ms × (length ms ≡ suc (length values)))
        (ok-injective h2)
        ((normalize_message-HasUpstreamRole index value one e, roles), ap suc same)

  -- The value is an array of as many entries.
  unfoldable pub IsArrayOf : Value → ℕ → Type 0
  IsArrayOf value n = (vs : Items) × (value ≡ array vs) × (length (items vs) ≡ n)

  as_array-some : (value : Value) (vs : Items) → as_array value ≡ some vs → value ≡ array vs
  as_array-some (array ws) vs h = ground (arith, h)
  as_array-some (Value.string s) vs h = cc
  as_array-some (Value.number n) vs h = cc
  as_array-some (Value.boolean b) vs h = cc
  as_array-some Value.null vs h = cc
  as_array-some (Value.object m) vs h = cc

  some_item : (vs : Items) → not (no_items vs) ≡ true → 1 ≤ length (items vs)
  some_item nil h = cc
  some_item (cons v vs) h = omega arith

  -- Normalised messages are one for each entry of a non-empty array, with a role that Venice knows.
  pub normalize_messages-ok :
      (value : Value) (messages : List NormalizedChatMessage)
      → normalize_messages serde value ≡ ok messages
      → All HasUpstreamRole messages × (1 ≤ length messages) × IsArrayOf value (length messages)
  unfolding normalize_messages IsArrayOf
  normalize_messages-ok value messages h =
      let (vs, e, h1) = ok_of_bind (ok_or (as_array value) _) _ h in
      let (kept, h2) = ok_of_ensure (not (no_items vs)) _ _ h1 in
      let (roles, same) = normalize_from-ok 0 (items vs) messages h2 in
      (
        roles,
        omega (arith, some_item vs kept, same),
        (vs, as_array-some value vs (ok_or-ok (as_array value) _ e), sym same),
      )
