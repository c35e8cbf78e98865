-- ===== src/Tests/Echo.antt =====
-- A small decision point, which permits one subject: it reads flags, one for each entity asked for,
-- and sends them back.
use mcp_opa.Base.{
  ℕ, ◌≡◌, ◌≤◌, ◌==◌, refl, ap, sym, ◌∙◌, inl, inr, Bool, true, false, List, [], ◌∷◌, ◌++◌, map,
  Option, none, some, Bytes, codes, if◌then◌else◌, Result, ok, err, length, is_empty, equal, arith,
  Bool-cases, ok-injective, length-map, String, take_all, some-injective, subst, equal_refl, ◌||◌,
  All,
}
use mcp_opa.Json.{RawMessage, object, end}
use mcp_opa.Pdp.Wire.{
  EvaluationRequest, EvaluationResponse, EvaluationsResponse, raw, raws, text_object, empty_object,
  EvaluationsRequest, Members, unless_empty, evaluation_members, evaluations_members,
}
use mcp_opa.Pdp.Exchange.{HttpRequest, response, Network}
use mcp_opa.Pdp.Client.{read_limited}
use mcp_opa.Pdp.Reply.{Delivers, ok_200}
use mcp_opa.Authzen.Codec.{Codec}
use mcp_opa.Authzen.Entities.{first_present}
use mcp_opa.Authzen.Entries.{effective}
use mcp_opa.Authzen.DecisionPoint.{
  Answers, IsDecisionPoint, IsJson, AbsentOrJson, JsonLaws, defaults_of,
}
use mcp_opa.Tests.Authzen.{codec, answers}

abbrev permitted : RawMessage → Bool
permitted m = equal m (codes "{a}")

abbrev shown : RawMessage → RawMessage
shown m = if is_empty m then codes "null" else m

abbrev pub policy : EvaluationRequest → Bool
policy r = permitted (shown r.subject)

abbrev flag : Bool → ℕ
flag b = if b then 1 else 0

flag_lem : (b : Bool) → (flag b == 1) ≡ b
flag_lem true = refl
flag_lem false = refl

abbrev entries_in : Members → Option (List RawMessage)
entries_in [] = none
entries_in ((name, raws rs) ∷ ms) = some rs
entries_in ((name, raw r) ∷ ms) = entries_in ms
entries_in ((name, text_object k t) ∷ ms) = entries_in ms
entries_in ((name, empty_object) ∷ ms) = entries_in ms

abbrev subject_in : Members → RawMessage
subject_in ((name, raw r) ∷ ms) = r
subject_in _ = []

abbrev flags : List RawMessage → Bytes
flags rs = map (λ r. flag (permitted r)) rs

abbrev body_with : Option (List RawMessage) → RawMessage → Bytes
body_with none subject = flag (permitted subject) ∷ []
body_with (some rs) subject = flags rs

abbrev body_of : Members → Bytes
body_of ms = body_with (entries_in ms) (subject_in ms)

abbrev decision_of : ℕ → EvaluationResponse
decision_of b = answers (some (b == 1))

abbrev decode_one : Bytes → Result Bytes EvaluationResponse
decode_one [] = err (codes "unexpected end")
decode_one (b ∷ bs) = ok (decision_of b)

abbrev decode_own : Bytes → Result Bytes EvaluationRequest
decode_own [] = err (codes "unexpected end")
decode_own (c ∷ s) = ok (record { subject = c ∷ s; action = []; resource = []; context = [] })

abbrev pub point_codec : Codec
point_codec = record codec {
  array = λ raw. ok (some (codes "{a}" ∷ codes "{b}" ∷ []));
  request = decode_own;
  response = decode_one;
  responses = λ bs. ok (record { evaluations = some (map decision_of bs) });
  encode = λ ms. ok (body_of ms);
}

abbrev pub echo : Network
echo sent = response 200 none (record { content = sent.body; fault = none })

abbrev pub evaluation_url : Bytes
evaluation_url = codes "http://h/access/v1/evaluation"

abbrev pub evaluations_url : Bytes
evaluations_url = codes "http://h/access/v1/evaluations"

-- The decision point has these two endpoints, and nothing else is found there.
abbrev pub point : Network
point sent =
    if equal sent.url evaluation_url || equal sent.url evaluations_url
    then echo sent
    else response 404 none (record { content = []; fault = none })

echo-Delivers :
    (limit : ℕ) (sent : HttpRequest)
    → length sent.body ≤ limit
    → Delivers limit sent.body (echo sent)
echo-Delivers limit sent h =
    ok_200 none {body = record { content = sent.body; fault = none }}
      (unfold read_limited in ap ok (take_all limit sent.body h))

entries_in-unless_empty :
    (name : String) (m : RawMessage) (ms : Members)
    → entries_in (unless_empty name m ++ ms) ≡ entries_in ms
entries_in-unless_empty name [] ms = refl
entries_in-unless_empty name (c ∷ m) ms = refl

body_of-evaluation_members :
    (r : EvaluationRequest) → body_of (evaluation_members r) ≡ flag (policy r) ∷ []
unfolding evaluation_members
body_of-evaluation_members r = elim (Bool-cases (is_empty r.context)) [
  | inl absent ↦ rw absent refl
  | inr present ↦ rw present refl
]

entries_in-evaluations_members :
    (r : EvaluationsRequest) → entries_in (evaluations_members r) ≡ some r.evaluations
unfolding evaluations_members
entries_in-evaluations_members r =
    entries_in-unless_empty "subject" r.subject _
    ∙ entries_in-unless_empty "action" r.action _
    ∙ entries_in-unless_empty "resource" r.resource _
    ∙ entries_in-unless_empty "context" r.context _

body_of-evaluations_members :
    (r : EvaluationsRequest) → body_of (evaluations_members r) ≡ flags r.evaluations
body_of-evaluations_members r =
    ap (λ found. body_with found (subject_in (evaluations_members r)))
      (entries_in-evaluations_members r)

decides_own :
    (defaults : EvaluationRequest) (m : RawMessage) (own : EvaluationRequest)
    → decode_own m ≡ ok own
    → (decision_of (flag (permitted m))).decision ≡ some (policy (effective own defaults))
unfolding first_present
decides_own defaults [] own h = cc
decides_own defaults (c ∷ s) own h =
    ap some (flag_lem (permitted (c ∷ s)))
    ∙ ap (λ own. some (policy (effective own defaults))) (ok-injective h)

flags-Answers :
    (defaults : EvaluationRequest) (entries : List RawMessage)
    → Answers point_codec policy defaults entries (map decision_of (flags entries))
flags-Answers defaults [] = tt
flags-Answers defaults (m ∷ entries) = (decides_own defaults m, flags-Answers defaults entries)

module _ (sent : HttpRequest) where
  point-evaluation : sent.url ≡ evaluation_url → point sent ≡ echo sent
  point-evaluation h = rw (h, equal_refl evaluation_url) refl

  point-evaluations : sent.url ≡ evaluations_url → point sent ≡ echo sent
  unfolding equal
  point-evaluations h = rw h refl

module _ (limit : ℕ) (large : 100 ≤ limit) where
  pub point-IsDecisionPoint :
      IsDecisionPoint point_codec point limit evaluation_url evaluations_url policy
  point-IsDecisionPoint = record {
    decides_one = λ sent r posted there complete encodes.
        let same : sent.body ≡ flag (policy r) ∷ [] =
          sym (ok-injective encodes) ∙ body_of-evaluation_members r in
        (
          sent.body,
          decision_of (flag (policy r)),
          subst (Delivers limit sent.body) (sym (point-evaluation sent there))
              (echo-Delivers limit sent (rw same (omega (arith, large)))),
          ap decode_one same,
          ap some (flag_lem (policy r)),
        );
    decides_each = λ sent r posted there evaluable few all encodes.
        let same : sent.body ≡ flags r.evaluations =
          sym (ok-injective encodes) ∙ body_of-evaluations_members r in
        (
          sent.body,
          record { evaluations = some (map decision_of (flags r.evaluations)) },
          map decision_of (flags r.evaluations),
          subst (Delivers limit sent.body) (sym (point-evaluations sent there)) (
              echo-Delivers limit sent (
                rw same
                  (omega (arith, large, few, length-map (λ r. flag (permitted r)) r.evaluations)))),
          ap (λ b. ok (record { evaluations = some (map decision_of b) })) same,
          refl,
          flags-Answers (defaults_of r) r.evaluations,
        );
  }

brace_IsJson : (s : Bytes) → IsJson point_codec (codes "{" ++ s)
unfolding equal
brace_IsJson s = (object end, refl)

contexts_AbsentOrJson :
    (bs : Bytes) → All (λ e. AbsentOrJson point_codec e.context) (map decision_of bs)
contexts_AbsentOrJson [] = tt
contexts_AbsentOrJson (b ∷ bs) = (inr (brace_IsJson (codes "}")), contexts_AbsentOrJson bs)

pub point-JsonLaws : JsonLaws point_codec
point-JsonLaws = record {
  elements = λ text rs h.
      subst (All (IsJson point_codec)) (some-injective _ _ (ok-injective h))
        (brace_IsJson (codes "a}"), (brace_IsJson (codes "b}"), tt));
  context_of = one_context;
  contexts_of = λ text r es h found.
      subst (All (λ e. AbsentOrJson point_codec e.context))
        (some-injective _ _
          (ap (λ (r : EvaluationsResponse). r.evaluations) (ok-injective h) ∙ found))
        (contexts_AbsentOrJson text);
  encodes_one = λ r s a o c. (body_of (evaluation_members r), refl);
  encodes_each = λ r s a o c es. (body_of (evaluations_members r), refl);
  encodes_decision = λ v c. (codes "result", refl);
  encodes_decisions = λ v cs. (codes "result", refl);
}
  where
    one_context :
        (text : Bytes) (r : EvaluationResponse)
        → decode_one text ≡ ok r
        → AbsentOrJson point_codec r.context
    one_context [] r h = cc
    one_context (b ∷ bs) r h =
        subst (λ (r : EvaluationResponse). AbsentOrJson point_codec r.context) (ok-injective h)
          (inr (brace_IsJson (codes "}")))
