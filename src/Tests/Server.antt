-- ===== src/Tests/Server.antt =====
-- The server with its four tools, on a server of mcp-go that keeps a function from names to handlers.
use mcp_opa.Base.{
  ◌≡◌, ap, refl, inl, inr, false, [], ◌∷◌, Option, none, some, codes, if◌then◌else◌, str_eq, String,
  equal, ℕ,
}
use mcp_opa.Args.Read.{Request}
use mcp_opa.Pdp.Exchange.{requests, answer}
use mcp_opa.Server.Declaration.{texts_of}
use mcp_opa.Opa.SandboxLaws.{Occurs}
use mcp_opa.Authzen.Output.{evaluate_object, batch_object, discover_object}
use mcp_opa.Authzen.OutputLaws.{read_evaluate, read_batch, read_discover}
use mcp_opa.Opa.Result.{result_members}
use mcp_opa.Opa.ResultLaws.{read_result}
use mcp_opa.Server.ReadBack.{results_read_back}
use mcp_opa.Tests.Authzen.{decided, batch, discovered}
use mcp_opa.Server.Calls.{
  Handler, Libraries, Tool, evaluate_policy_tool, authzen_evaluate_tool,
  authzen_evaluate_batch_tool, declaration, handler,
}
use mcp_opa.Server.Registry.{ToolServer, new_server, find-new_server_iff}
use mcp_opa.Server.Agreement.{Agree, handler-Agree}
use mcp_opa.Server.Refusal.{RefusesUnseen, required-Refuses, foreign-Refuses}
use mcp_opa.Server.Sends.{SendsOne, handler-SendsOne}
use mcp_opa.Pdp.Token.{with_token, IgnoresToken}
use mcp_opa.Server.Token.{handler-token}
use mcp_opa.Tests.Site.{site, site-UrlLaws}
use mcp_opa.Tests.Configuration.{settings_config}
use mcp_opa.Tests.Evaluation.{evaluated, all_builtins, opa_codec, engine, pretty}
use mcp_opa.Tests.Echo.{point_codec, echo}
use mcp_opa.Tests.Point.{asks_a}

abbrev pub Server : Type 0
Server = String → Option Handler

abbrev pub named_tools : ToolServer
named_tools = record {
  Server = Server;
  new = λ o name. none;
  add_tool = λ s d h name. if str_eq d.name name then some h else s name;
  find = λ s name. s name;
  find-new = λ o name. refl;
  find-add_tool = λ s d h name. refl;
}

abbrev pub libs : Libraries Unit Unit ℕ
libs = record {
  urls = site;
  codec = point_codec;
  opa_codec = opa_codec;
  engine = engine;
  base = all_builtins;
  pretty = pretty;
}

find-new_server_iff_example :
    (t : Tool) × ("authzen_evaluate" ≡ (declaration t).name)
    × (handler libs settings_config authzen_evaluate_tool ≡ handler libs settings_config t)
find-new_server_iff_example =
    (find-new_server_iff named_tools libs settings_config (codes "dev") none "authzen_evaluate"
        (handler libs settings_config authzen_evaluate_tool)).0
      (unfold new_server in refl)

-- An argument that the tool does not declare.
abbrev asks_more : Request
asks_more = record {
  get_string =
      λ name missing. if str_eq name "tenant" then codes "t" else asks_a.get_string name missing;
  get_bool = λ name missing. missing;
}

is_declared :
    (name : String)
    → Occurs name (texts_of (declaration authzen_evaluate_tool).options)
    → str_eq name "tenant" ≡ false
is_declared name (inl e) = ap (λ n. str_eq n "tenant") e
is_declared name (inr (inl e)) = ap (λ n. str_eq n "tenant") e
is_declared name (inr (inr (inl e))) = ap (λ n. str_eq n "tenant") e
is_declared name (inr (inr (inr (inl e)))) = ap (λ n. str_eq n "tenant") e
is_declared name (inr (inr (inr (inr (inl e))))) = ap (λ n. str_eq n "tenant") e
is_declared name (inr (inr (inr (inr (inr o))))) = absurd o

same_declared : Agree (declaration authzen_evaluate_tool) asks_a asks_more
same_declared = record {
  texts = λ name missing o. rw (is_declared name o) refl;
  flags = λ name missing o. absurd o;
}

handler-Agree_example :
    handler libs settings_config authzen_evaluate_tool none asks_a
    ≡ handler libs settings_config authzen_evaluate_tool none asks_more
handler-Agree_example =
    handler-Agree libs settings_config authzen_evaluate_tool none asks_a asks_more same_declared

abbrev asks_nothing : Request
asks_nothing = record { get_string = λ name missing. missing; get_bool = λ name missing. missing }

required-Refuses_example :
    RefusesUnseen libs settings_config none asks_nothing authzen_evaluate_tool
required-Refuses_example =
    required-Refuses libs settings_config none asks_nothing authzen_evaluate_tool "resource"
      (inr (inr (inl refl))) refl

abbrev asks_semantic : Request
asks_semantic = record {
  get_string = λ name missing.
      if str_eq name "evaluations_semantic" then codes "any" else asks_a.get_string name missing;
  get_bool = λ name missing. missing;
}

foreign-Refuses_example :
    RefusesUnseen libs settings_config none asks_semantic authzen_evaluate_batch_tool
foreign-Refuses_example =
    foreign-Refuses libs settings_config none asks_semantic authzen_evaluate_batch_tool
      "evaluations_semantic" ("execute_all" ∷ "deny_on_first_deny" ∷ "permit_on_first_permit" ∷ [])
      (codes "any") (inl refl) (λ missing. refl) (λ e. cc) (unfold equal in refl)

handler-SendsOne_example :
    SendsOne site settings_config none
      (requests echo (handler libs settings_config authzen_evaluate_tool none asks_a))
    × (authzen_evaluate_tool ≡ evaluate_policy_tool
        → requests echo (handler libs settings_config authzen_evaluate_tool none asks_a) ≡ [])
handler-SendsOne_example =
    handler-SendsOne libs settings_config none asks_a echo site-UrlLaws authzen_evaluate_tool

echo-IgnoresToken : IgnoresToken echo
echo-IgnoresToken r r' s = rw s.body refl

handler-token_example :
    answer echo (handler libs settings_config authzen_evaluate_tool none asks_a)
    ≡ answer echo (
        handler libs (with_token (codes "other") settings_config) authzen_evaluate_tool none asks_a)
handler-token_example =
    handler-token echo echo-IgnoresToken libs settings_config (codes "other") none asks_a
      authzen_evaluate_tool

results_read_back_example :
    (read_result (result_members evaluated) ≡ some evaluated)
    × (read_evaluate (evaluate_object decided.value) ≡ some decided.value)
    × (read_batch (batch_object batch.value) ≡ some batch.value)
    × (read_discover (discover_object discovered.value) ≡ some discovered.value)
results_read_back_example = results_read_back evaluated decided.value batch.value discovered.value
