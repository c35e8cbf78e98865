-- ===== src/Authzen/RequestLaws.antt =====
-- Which requests are built from the arguments.
use mcp_opa.Base.{
  ℕ, ◌≡◌, ◌≢◌, ◌↔◌, inl, inr, ap, ◌∙◌, subst, Bool, true, false, [], Bytes, String, arith, ok,
  ok-injective, ◌>>◌, map_err, >>=-eq-ok, map_err-eq-ok,
}
use mcp_opa.Json.{RawMessage}
use mcp_opa.Config.Load.{Config}
use mcp_opa.Args.Read.{Request, json_object_arg}
use mcp_opa.Args.Laws.{json_object_arg_iff, AcceptsObject}
use mcp_opa.Pdp.Wire.{EvaluationRequest}
use mcp_opa.Authzen.Codec.{Codec}
use mcp_opa.Authzen.Entities.{
  Entity, subject, action, resource, Place, argument, bad_entity, bad_argument, require_members,
  required_members, entity_of, check_entity, validate_entities, object_argument,
  read_evaluation_args,
}
use mcp_opa.Authzen.EntityLaws.{
  IsComplete, IsAcceptable, require_members_sound, require_members_complete,
}

module _ (codec : Codec) (r : EvaluationRequest) (place : Place) where
  check_entity_sound :
      (e : Entity) {u : Unit {0}}
      → check_entity codec r place e ≡ ok u
      → IsAcceptable codec (entity_of r e) e
  check_entity_sound e h = require_members_sound codec (entity_of r e) e (
      map_err-eq-ok (bad_entity place e)
        (require_members codec (entity_of r e) (required_members e)) h)

  check_entity_complete :
      (e : Entity) → IsAcceptable codec (entity_of r e) e → check_entity codec r place e ≡ ok tt
  check_entity_complete e h =
      ap (map_err (bad_entity place e)) (require_members_complete codec (entity_of r e) e h)

  pub validate_entities_sound :
      {u : Unit {0}}
      → validate_entities codec r place ≡ ok u
      → (e : Entity) → IsAcceptable codec (entity_of r e) e
  unfolding validate_entities
  validate_entities_sound h e =
      let (u, first, h1) = >>=-eq-ok (check_entity codec r place subject) _ h in
      let (v, second, third) = >>=-eq-ok (check_entity codec r place action) _ h1 in
      by_entity first second third e
    where
      by_entity :
          {u v w : Unit {0}}
          → check_entity codec r place subject ≡ ok u
          → check_entity codec r place action ≡ ok v
          → check_entity codec r place resource ≡ ok w
          → (e : Entity) → IsAcceptable codec (entity_of r e) e
      by_entity s a r subject = check_entity_sound subject s
      by_entity s a r action = check_entity_sound action a
      by_entity s a r resource = check_entity_sound resource r

  pub validate_entities_complete :
      ((e : Entity) → IsAcceptable codec (entity_of r e) e)
      → validate_entities codec r place ≡ ok tt
  unfolding validate_entities
  validate_entities_complete h =
      ap (λ m. m >> (check_entity codec r place action >> check_entity codec r place resource))
        (check_entity_complete subject (h subject))
      ∙ ap (λ m. m >> check_entity codec r place resource) (check_entity_complete action (h action))
      ∙ check_entity_complete resource (h resource)

-- The entities are accepted exactly when each is absent or is an object that carries, as texts that
-- are not empty, the type and the id if it is the subject or the resource, and the name if it is the
-- action.
pub validate_entities_iff :
    (codec : Codec) (r : EvaluationRequest) (place : Place)
    → (validate_entities codec r place ≡ ok tt)
      ↔ ((e : Entity) → IsAcceptable codec (entity_of r e) e)
validate_entities_iff codec r place =
    (validate_entities_sound codec r place, validate_entities_complete codec r place)

-- The arguments' texts, byte for byte, with entities that the decision point can be asked about.
pub record ReadsArguments (codec : Codec) (req : Request) (cfg : Config) (required : Bool)
    (r : EvaluationRequest) : Type 0 where
  pub subject_is :
      AcceptsObject codec.any (req.get_string "subject" []) cfg.max_arg_bytes required r.subject
  pub action_is :
      AcceptsObject codec.any (req.get_string "action" []) cfg.max_arg_bytes required r.action
  pub resource_is :
      AcceptsObject codec.any (req.get_string "resource" []) cfg.max_arg_bytes required r.resource
  pub context_is :
      AcceptsObject codec.any (req.get_string "context" []) cfg.max_arg_bytes false r.context
  pub acceptable : (e : Entity) → IsAcceptable codec (entity_of r e) e

module _ (codec : Codec) (req : Request) (cfg : Config) where
  object_argument_sound :
      (name : String) (required : Bool) {raw : RawMessage}
      → object_argument codec req cfg name required ≡ ok raw
      → AcceptsObject codec.any (req.get_string name []) cfg.max_arg_bytes required raw
  object_argument_sound name required {raw} h =
      (json_object_arg_iff codec.any req name cfg.max_arg_bytes required raw).0 (
        map_err-eq-ok bad_argument (json_object_arg codec.any req name cfg.max_arg_bytes required)
          h)

  pub read_evaluation_args_sound :
      (required : Bool) (r : EvaluationRequest)
      → read_evaluation_args codec req cfg required ≡ ok r
      → ReadsArguments codec req cfg required r
  unfolding read_evaluation_args
  read_evaluation_args_sound required r h =
      let (s, hs, h1) = >>=-eq-ok (object_argument codec req cfg "subject" required) _ h in
      let (a, ha, h2) = >>=-eq-ok (object_argument codec req cfg "action" required) _ h1 in
      let (o, ho, h3) = >>=-eq-ok (object_argument codec req cfg "resource" required) _ h2 in
      let (c, hc, h4) = >>=-eq-ok (object_argument codec req cfg "context" false) _ h3 in
      let out : EvaluationRequest = record { subject = s; action = a; resource = o; context = c } in
      let (u, valid, last) = >>=-eq-ok (validate_entities codec out argument) (λ u. ok out) h4 in
      subst (ReadsArguments codec req cfg required) (ok-injective last) (record {
        subject_is = object_argument_sound "subject" required hs;
        action_is = object_argument_sound "action" required ha;
        resource_is = object_argument_sound "resource" required ho;
        context_is = object_argument_sound "context" false hc;
        acceptable = validate_entities_sound codec out argument valid;
      })

AcceptsObject-present :
    (codec : Codec) {sent raw : Bytes} {max : ℕ}
    → AcceptsObject codec.any sent max true raw
    → raw ≢ []
AcceptsObject-present codec (e, inl (z, absurdly)) = absurd (ground arith)
AcceptsObject-present codec (e, inr (ne, p, o)) = ne

-- Where they are required, all three entities are there and complete.
pub ReadsArguments-IsComplete :
    {codec : Codec} {req : Request} {cfg : Config} {r : EvaluationRequest}
    → ReadsArguments codec req cfg true r
    → (e : Entity) → IsComplete codec (entity_of r e) e
ReadsArguments-IsComplete {codec} {r} a e = elim (a.acceptable e) [
  | inl absent ↦ absurd (present e absent)
  | inr c ↦ c
]
  where
    present : (e : Entity) → entity_of r e ≢ []
    present subject = AcceptsObject-present codec a.subject_is
    present action = AcceptsObject-present codec a.action_is
    present resource = AcceptsObject-present codec a.resource_is
