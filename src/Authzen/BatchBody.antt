-- ===== src/Authzen/BatchBody.antt =====
-- The body of a batch: what it carries of the defaults, the entries and the semantic.
use mcp_opa.Base.{
  ◌≡◌, ◌⊎◌, inl, inr, refl, ap, ◌∙◌, ◌∷◌, true, false, Bytes, is_empty, if◌then◌else◌, List, any,
  codes, String, str_eq, ◌++◌, none, some, arith, equal, equal_iff, Bool-cases,
}
use mcp_opa.Json.{RawMessage}
use mcp_opa.Pdp.Wire.{
  Members, raw, raws, text_object, unless_empty, option_member, part_named, EvaluationRequest,
  evaluations_members,
}
use mcp_opa.Authzen.Handlers.{batch_body, semantics}

-- A raw message is in the body under its name, and left out where it is absent.
abbrev pub Carries : Members → String → RawMessage → Type 0
Carries body name m = part_named name body ≡ (if is_empty m then none else some (raw m))

module _ (name : String) (m : RawMessage) (ms : Members) where
  passes_by :
      (known : String)
      → str_eq known name ≡ false
      → part_named name (unless_empty known m ++ ms) ≡ part_named name ms
  passes_by known other = elim (Bool-cases (is_empty m)) [
    | inl absent ↦ rw absent refl
    | inr present ↦ rw present (rw other refl)
  ]

  is_carried :
      (known : String)
      → str_eq known name ≡ true
      → part_named name ms ≡ none
      → part_named name (unless_empty known m ++ ms) ≡ (if is_empty m then none else some (raw m))
  is_carried known same gone = elim (Bool-cases (is_empty m)) [
    | inl absent ↦ rw absent gone
    | inr present ↦ rw present (rw same refl)
  ]

module _ (defaults : EvaluationRequest) (entries : List RawMessage) (semantic : Bytes) where
  abbrev pub body_sent : Members
  body_sent = evaluations_members (batch_body defaults entries semantic)

  -- A name that is none of the four defaults' is looked up behind them.
  pub body_sent-behind :
      (name : String)
      → str_eq "subject" name ≡ false
      → str_eq "action" name ≡ false
      → str_eq "resource" name ≡ false
      → str_eq "context" name ≡ false
      → part_named name body_sent
        ≡ part_named name
            (("evaluations", raws entries) ∷ option_member (some (record { semantic = semantic })))
  unfolding evaluations_members
  body_sent-behind name s a r c =
      passes_by name defaults.subject _ "subject" s
      ∙ passes_by name defaults.action _ "action" a
      ∙ passes_by name defaults.resource _ "resource" r
      ∙ passes_by name defaults.context _ "context" c

  pub subject-Carries : Carries body_sent "subject" defaults.subject
  unfolding evaluations_members
  subject-Carries = is_carried "subject" defaults.subject _ "subject" refl (
      passes_by "subject" defaults.action _ "action" refl
      ∙ passes_by "subject" defaults.resource _ "resource" refl
      ∙ passes_by "subject" defaults.context _ "context" refl)

  pub action-Carries : Carries body_sent "action" defaults.action
  unfolding evaluations_members
  action-Carries =
      passes_by "action" defaults.subject _ "subject" refl
      ∙ is_carried "action" defaults.action _ "action" refl (
          passes_by "action" defaults.resource _ "resource" refl
          ∙ passes_by "action" defaults.context _ "context" refl)

  pub resource-Carries : Carries body_sent "resource" defaults.resource
  unfolding evaluations_members
  resource-Carries =
      passes_by "resource" defaults.subject _ "subject" refl
      ∙ passes_by "resource" defaults.action _ "action" refl
      ∙ is_carried "resource" defaults.resource _ "resource" refl
          (passes_by "resource" defaults.context _ "context" refl)

  pub context-Carries : Carries body_sent "context" defaults.context
  unfolding evaluations_members
  context-Carries =
      passes_by "context" defaults.subject _ "subject" refl
      ∙ passes_by "context" defaults.action _ "action" refl
      ∙ passes_by "context" defaults.resource _ "resource" refl
      ∙ is_carried "context" defaults.context _ "context" refl refl

  pub options_sent :
      is_empty semantic ≡ false
      → part_named "options" body_sent ≡ some (text_object "evaluations_semantic" semantic)
  options_sent present = body_sent-behind "options" refl refl refl refl ∙ rw present refl

abbrev pub IsSemantic : Bytes → Type 0
IsSemantic s =
    (s ≡ codes "execute_all")
    ⊎ (s ≡ codes "deny_on_first_deny")
    ⊎ (s ≡ codes "permit_on_first_permit")

pub semantics-IsSemantic : (s : Bytes) → any (equal s) semantics ≡ true → IsSemantic s
semantics-IsSemantic s h = elim (Bool-cases (equal s (codes "execute_all"))) [
  | inl all ↦ inl ((equal_iff s _).0 all)
  | inr other ↦ elim (Bool-cases (equal s (codes "deny_on_first_deny"))) [
    | inl deny ↦ inr (inl ((equal_iff s _).0 deny))
    | inr another ↦ elim (Bool-cases (equal s (codes "permit_on_first_permit"))) [
      | inl permit ↦ inr (inr ((equal_iff s _).0 permit))
      | inr foreign ↦ absurd (ground (arith, other, another, foreign))
    ]
  ]
]

pub IsSemantic-present : (s : Bytes) → IsSemantic s → is_empty s ≡ false
IsSemantic-present s (inl e) = ap is_empty e
IsSemantic-present s (inr (inl e)) = ap is_empty e
IsSemantic-present s (inr (inr e)) = ap is_empty e
