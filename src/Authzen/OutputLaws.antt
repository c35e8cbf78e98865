-- ===== src/Authzen/OutputLaws.antt =====
-- The results can be read back from the objects that are encoded.
use mcp_opa.Base.{
  ◌then◌, ℕ, ◌≡◌, refl, Bool, true, false, List, [], ◌∷◌, Option, none, some, Bytes, if◌then◌else◌,
  String, str_eq,
}
use mcp_opa.Json.{RawMessage}
use mcp_opa.Pdp.Wire.{PdpMetadata}
use mcp_opa.Authzen.Output.{
  EvaluateOutput, BatchDecision, BatchOutput, DiscoverOutput, Node, truth, whole, text_node,
  raw_node, object_node, list_node, Object, no_member, with_member, Objects, no_object, with_object,
  raw_unless_empty, text_unless_empty, evaluate_object, decision_object, decision_objects,
  batch_object, metadata_object, discover_object,
}

-- The member of a name.
abbrev get : String → Object → Option Node
get name no_member = none
get name (with_member n v rest) =
    let later = get name rest in if str_eq n name then some v else later

-- A member without `omitempty` must be there, as its type.
abbrev read_truth : Option Node → Option Bool
read_truth (some (truth b)) = some b
read_truth _ = none

abbrev read_whole : Option Node → Option ℕ
read_whole (some (whole n)) = some n
read_whole _ = none

abbrev read_text : Option Node → Option Bytes
read_text (some (text_node t)) = some t
read_text _ = none

-- One with `omitempty` is empty where it is missing.
abbrev read_raw : Option Node → Option RawMessage
read_raw none = some []
read_raw (some (raw_node m)) = some m
read_raw _ = none

abbrev read_optional : Option Node → Option Bytes
read_optional none = some []
read_optional (some (text_node t)) = some t
read_optional _ = none

abbrev pub read_evaluate : Object → Option EvaluateOutput
read_evaluate o = read_truth (get "decision" o) then λ d. read_raw (get "context" o) then λ c.
    read_text (get "pdp_url" o) then λ url. read_text (get "request_id" o) then λ id.
    some (record { decision = d; context = c; pdp_url = url; request_id = id })

abbrev read_decision : Object → Option BatchDecision
read_decision o = read_whole (get "index" o) then λ i. read_truth (get "decision" o) then λ d.
    read_raw (get "context" o) then λ c. some (record { index = i; decision = d; context = c })

abbrev read_decisions : Objects → Option (List BatchDecision)
read_decisions no_object = some []
read_decisions (with_object o os) =
    let rest = read_decisions os in read_decision o then λ d. rest then λ ds. some (d ∷ ds)

abbrev read_list : Option Node → Option (List BatchDecision)
read_list (some (list_node os)) = read_decisions os
read_list _ = none

abbrev pub read_batch : Object → Option BatchOutput
read_batch o = read_list (get "decisions" o) then λ ds.
    read_text (get "evaluations_semantic" o) then λ s. read_truth (get "truncated" o) then λ t.
    read_text (get "pdp_url" o) then λ url. read_text (get "request_id" o) then λ id.
    some (record { decisions = ds; semantic = s; truncated = t; pdp_url = url; request_id = id })

-- A result of authzen_evaluate can be read back from the object that is encoded, in which the decision
-- is a member of its own, a deny as well.
pub read_evaluate-evaluate_object :
    (v : EvaluateOutput) → read_evaluate (evaluate_object v) ≡ some v
unfolding evaluate_object
read_evaluate-evaluate_object v = go v.context
  where
    go :
        (c : RawMessage)
        → read_evaluate (evaluate_object (record v { context = c }))
          ≡ some (record v { context = c })
    go [] = refl
    go (b ∷ c) = refl

read_decision-decision_object : (d : BatchDecision) → read_decision (decision_object d) ≡ some d
unfolding decision_object
read_decision-decision_object d = go d.context
  where
    go :
        (c : RawMessage)
        → read_decision (decision_object (record d { context = c }))
          ≡ some (record d { context = c })
    go [] = refl
    go (b ∷ c) = refl

read_decisions-decision_objects :
    (ds : List BatchDecision) → read_decisions (decision_objects ds) ≡ some ds
unfolding decision_objects
read_decisions-decision_objects [] = refl
read_decisions-decision_objects (d ∷ ds) =
    rw (read_decision-decision_object d, read_decisions-decision_objects ds) refl

-- A result of authzen_evaluate_batch can be read back from the object that is encoded: the decisions
-- with their places and contexts, in their order, and whether some are lacking.
pub read_batch-batch_object : (v : BatchOutput) → read_batch (batch_object v) ≡ some v
unfolding batch_object
read_batch-batch_object v = rw (read_decisions-decision_objects v.decisions) refl

-- The members of the metadata, those with `omitempty` empty where they are missing.
abbrev read_metadata : Object → Option PdpMetadata
read_metadata o = read_text (get "policy_decision_point" o) then λ p.
    read_text (get "access_evaluation_endpoint" o) then λ e.
    read_optional (get "access_evaluations_endpoint" o) then λ es.
    read_optional (get "search_subject_endpoint" o) then λ ss.
    read_optional (get "search_resource_endpoint" o) then λ sr.
    read_optional (get "search_action_endpoint" o) then λ sa.
    read_raw (get "capabilities" o) then λ c. read_optional (get "signed_metadata" o) then λ sm.
    read_raw (get "supported_evaluation_options" o) then λ so. some (record {
      policy_decision_point = p;
      access_evaluation_endpoint = e;
      access_evaluations_endpoint = es;
      search_subject_endpoint = ss;
      search_resource_endpoint = sr;
      search_action_endpoint = sa;
      capabilities = c;
      signed_metadata = sm;
      supported_evaluation_options = so;
    })

abbrev read_object : Option Node → Option Object
read_object (some (object_node o)) = some o
read_object _ = none

abbrev pub read_discover : Object → Option DiscoverOutput
read_discover o = read_text (get "metadata_url" o) then λ url.
    read_object (get "metadata" o) then λ m.
    read_metadata m then λ meta. some (record { metadata_url = url; metadata = meta })

module _ (name : String) (rest : Object) where
  get-text_unless_empty :
      (n : String) (t : Bytes)
      → str_eq n name ≡ false
      → get name (text_unless_empty n t rest) ≡ get name rest
  get-text_unless_empty n [] other = refl
  get-text_unless_empty n (b ∷ t) other = rw other refl

  get-raw_unless_empty :
      (n : String) (m : RawMessage)
      → str_eq n name ≡ false
      → get name (raw_unless_empty n m rest) ≡ get name rest
  get-raw_unless_empty n [] other = refl
  get-raw_unless_empty n (b ∷ m) other = rw other refl

  read_optional-get :
      (t : Bytes)
      → str_eq name name ≡ true
      → get name rest ≡ none
      → read_optional (get name (text_unless_empty name t rest)) ≡ some t
  read_optional-get [] same missing = rw missing refl
  read_optional-get (b ∷ t) same missing = rw same refl

  read_raw-get :
      (m : RawMessage)
      → str_eq name name ≡ true
      → get name rest ≡ none
      → read_raw (get name (raw_unless_empty name m rest)) ≡ some m
  read_raw-get [] same missing = rw missing refl
  read_raw-get (b ∷ m) same missing = rw same refl

read_metadata-metadata_object : (m : PdpMetadata) → read_metadata (metadata_object m) ≡ some m
unfolding metadata_object
read_metadata-metadata_object m =
    simp (get-text_unless_empty, get-raw_unless_empty, read_optional-get, read_raw-get)

-- A result of authzen_discover can be read back from the object that is encoded: what `omitempty` leaves
-- out is empty.
pub read_discover-discover_object :
    (v : DiscoverOutput) → read_discover (discover_object v) ≡ some v
unfolding discover_object
read_discover-discover_object v = rw (read_metadata-metadata_object v.metadata) refl
