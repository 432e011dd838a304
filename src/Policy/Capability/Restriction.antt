-- ===== src/Policy/Capability/Restriction.antt =====
-- What the runtime context can do to the decision of a policy: crates/capability-policy/src/lib.rs.
use connor_agent_core.Common.{
  String, false, ◌≡◌, refl, find, ◌∙◌, subst, if_rule, Option, none, some, ◌⊎◌, inl, inr,
  Bool-cases,
}
use connor_agent_core.Domain.Descriptors.{Time}
use connor_agent_core.Domain.Action.{ActionRequest}
use connor_agent_core.Policy.Permission.{
  EnterpriseRole, PermissionDecision, allow as permission_allow, deny as permission_deny,
}
use connor_agent_core.Policy.Permission.Store.{PermissionStore, check_with_role}
use connor_agent_core.Policy.Capability.{
  PolicyRule, same_effect, SideEffectKind, PolicyRuleDecision, PolicyMatchedRule, PolicyEvaluation,
  PolicyEvaluationContext, PolicyResourceContext, CapabilityPolicy, is_denied,
}
use connor_agent_core.Policy.Capability.Evaluate.{
  applied, explained, confirmed, for_resource, evaluate_with_explanation, evaluate_with_context,
  apply_context, user_of, role_of, decision_of, permission_for,
}

-- the decision is that of the explanation, for its reason
abbrev pub IsExplained : PolicyEvaluation → Type 0
IsExplained v = v.decision ≡ decision_of v.explanation.decision v.explanation.user_facing_reason

PermissionDecision-cases : (d : PermissionDecision) → (d ≡ permission_allow) ⊎ (d ≡ permission_deny)
PermissionDecision-cases permission_allow = inl refl
PermissionDecision-cases permission_deny = inr refl

-- the user, the store, and that it allows
abbrev pub Permits :
    Option String → Option PermissionStore → EnterpriseRole → PolicyResourceContext → Time → Type 0
Permits named store role resource now =
    (user_id : String) × (s : PermissionStore) × (named ≡ some user_id)
    × (store ≡ some s)
    × (check_with_role user_id role resource.resource_type resource.resource_id
          resource.permission_action now s
        ≡ permission_allow)

permission_for-Permits :
    (named : Option String) (store : Option PermissionStore) (role : EnterpriseRole)
    (resource : PolicyResourceContext) (now : Time)
    → permission_for named store role resource now ≡ permission_allow
    → Permits named store role resource now
permission_for-Permits none store role resource now e = cc
permission_for-Permits (some u) none role resource now e = cc
permission_for-Permits (some u) (some s) role resource now e = (u, s, refl, refl, e)

confirmed_lem :
    (d : PermissionDecision) (base : PolicyEvaluation) (resource : PolicyResourceContext)
    → is_denied (confirmed d base resource).decision ≡ false
    → (confirmed d base resource ≡ base) × (d ≡ permission_allow)
confirmed_lem permission_allow base resource h = (refl, refl)
confirmed_lem permission_deny base resource h = cc

apply_context-resource :
    (base : PolicyEvaluation) (context : PolicyEvaluationContext) (store : Option PermissionStore)
    (now : Time) (resource : PolicyResourceContext)
    → context.resource ≡ some resource
    → is_denied (apply_context base context store now).decision ≡ false
    → apply_context base context store now
      ≡ confirmed
          (permission_for (user_of context.actor) store (role_of context.actor) resource now)
          base
          resource
unfolding apply_context
apply_context-resource base context store now resource e h =
    elim (Bool-cases (is_denied base.decision)) [ inl denied ↦ cc | inr live ↦ rw (live, e) refl ]

-- If the evaluation in a context that names a resource does not deny, it is the policy's own
-- evaluation, unchanged, and the permission store was given, the actor is an enterprise user, and
-- the store allows that user, in the actor's role, the action on the resource: a context can only
-- restrict what the policy decides.
pub evaluate_with_context-restricts :
    (p : CapabilityPolicy) (request : ActionRequest) (effect : SideEffectKind)
    (context : PolicyEvaluationContext) (store : Option PermissionStore) (now : Time)
    (resource : PolicyResourceContext)
    → context.resource ≡ some resource
    → is_denied (evaluate_with_context p request effect context store now).decision ≡ false
    → (evaluate_with_context p request effect context store now
        ≡ evaluate_with_explanation p request effect)
      × Permits (user_of context.actor) store (role_of context.actor) resource now
unfolding evaluate_with_context
evaluate_with_context-restricts p request effect context store now resource e h =
    let base = evaluate_with_explanation p request effect in
    let same = apply_context-resource base context store now resource e h in
    let (kept, permitted) =
      confirmed_lem
        (permission_for (user_of context.actor) store (role_of context.actor) resource now) base
        resource (subst (λ (v : PolicyEvaluation). is_denied v.decision ≡ false) same h) in
    (same ∙ kept, permission_for-Permits _ store _ resource now permitted)

explained-IsExplained :
    (request : ActionRequest) (effect : SideEffectKind) (d : PolicyRuleDecision × PolicyMatchedRule)
    → IsExplained (explained request effect d)
explained-IsExplained request effect (decision, matched) = refl

confirmed-IsExplained :
    (d : PermissionDecision) (base : PolicyEvaluation) (resource : PolicyResourceContext)
    → IsExplained base
    → IsExplained (confirmed d base resource)
confirmed-IsExplained permission_allow base resource h = h
confirmed-IsExplained permission_deny base resource h = refl

for_resource-IsExplained :
    (r : Option PolicyResourceContext) (base : PolicyEvaluation) (context : PolicyEvaluationContext)
    (store : Option PermissionStore) (now : Time)
    → IsExplained base
    → IsExplained (for_resource r base context store now)
for_resource-IsExplained none base context store now h = h
for_resource-IsExplained (some resource) base context store now h =
    confirmed-IsExplained
      (permission_for (user_of context.actor) store (role_of context.actor) resource now) base
      resource h

-- In every evaluation, whatever the context, the decision is the one that its explanation states,
-- for the reason that the explanation gives the user.
pub evaluate_with_context-IsExplained :
    (p : CapabilityPolicy) (request : ActionRequest) (effect : SideEffectKind)
    (context : PolicyEvaluationContext) (store : Option PermissionStore) (now : Time)
    → IsExplained (evaluate_with_context p request effect context store now)
unfolding evaluate_with_context apply_context evaluate_with_explanation
evaluate_with_context-IsExplained p request effect context store now =
    let base = evaluate_with_explanation p request effect in
    let own =
      explained-IsExplained request effect
        (applied p (find (λ (r : PolicyRule). same_effect r.side_effect effect) p.rules)) in
    if_rule IsExplained (is_denied base.decision) own
      (for_resource-IsExplained context.resource base context store now own)
