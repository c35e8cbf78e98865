-- ===== src/Server/Token.antt =====
-- What a call ends with does not depend on the token.
use mcp_opa.Base.{◌≡◌, refl, ap, sym, ◌∙◌, Option, Bytes, Result, ok, err, map_err}
use mcp_opa.Base.Results
use mcp_opa.Config.Load.{Config}
use mcp_opa.Args.Read.{Request}
use mcp_opa.Pdp.Wire.{Members}
use mcp_opa.Pdp.Exchange.{
  Exchange, ◌>>=◌, attempt, relabel, Network, answer, answer->>=, answer-relabel,
}
use mcp_opa.Authzen.Entities.{read_evaluation_args}
use mcp_opa.Authzen.Entries.{read_evaluation_entries}
use mcp_opa.Authzen.Handlers.{authzen_evaluate, authzen_evaluate_batch, authzen_discover}
use mcp_opa.Opa.Sandbox.{capabilities, sandbox_hint}
use mcp_opa.Opa.Evaluate.{evaluate_policy, read_policy, prepare, report_run}
use mcp_opa.Server.Calls.{
  authzen_failed, Libraries, Tool, evaluate_policy_tool, authzen_evaluate_tool,
  authzen_evaluate_batch_tool, authzen_discover_tool, handler, handle_policy, handle_evaluate,
  handle_batch, handle_discover,
}
use mcp_opa.Pdp.Token.{with_token, IgnoresToken, post_json-token, get_json-token}

-- Two handlers that end alike.
abbrev EndsAs : {E A : Type 0} → Network → Exchange E A → Exchange E A → Type 0
EndsAs net m m' = answer net m ≡ answer net m'

module _ (net : Network) {E F A B : Type 0} where
  EndsAs-attempt :
      (g : E → F) (m : Result E A) (f f' : A → Exchange F B)
      → ((a : A) → EndsAs net (f a) (f' a))
      → EndsAs net (attempt g m >>= f) (attempt g m >>= f')
  EndsAs-attempt g (ok a) f f' h = h a
  EndsAs-attempt g (err e) f f' h = refl

  EndsAs-relabel :
      (g : E → F) (m m' : Exchange E A) (f : A → Exchange F B)
      → EndsAs net m m'
      → EndsAs net (relabel g m >>= f) (relabel g m' >>= f)
  EndsAs-relabel g m m' f h =
      answer->>= net (relabel g m) f
      ∙ ap (λ a. Results.◌>>=◌ a (λ a. answer net (f a)))
          (answer-relabel net g m ∙ ap (map_err g) h ∙ sym (answer-relabel net g m'))
      ∙ sym (answer->>= net (relabel g m') f)

module _ (net : Network) (ignores : IgnoresToken net) where
  module _ {Decl Rest Event : Type 0} (libs : Libraries Decl Rest Event) (cfg : Config)
      (other : Bytes) (entropy : Option Bytes) (req : Request) where
    evaluate-token :
        EndsAs net
          (authzen_evaluate libs.urls libs.codec cfg entropy req)
          (authzen_evaluate libs.urls libs.codec (with_token other cfg) entropy req)
    unfolding authzen_evaluate read_evaluation_args
    evaluate-token =
        let post = λ (endpoint : Bytes) (body : Members).
          post_json-token net ignores libs.urls cfg other entropy endpoint libs.codec.encode
            libs.codec.response body in
        search (EndsAs-attempt, EndsAs-relabel, post)

    batch-token :
        EndsAs net
          (authzen_evaluate_batch libs.urls libs.codec cfg entropy req)
          (authzen_evaluate_batch libs.urls libs.codec (with_token other cfg) entropy req)
    unfolding authzen_evaluate_batch read_evaluation_args read_evaluation_entries
    batch-token =
        let post = λ (endpoint : Bytes) (body : Members).
          post_json-token net ignores libs.urls cfg other entropy endpoint libs.codec.encode
            libs.codec.responses body in
        search (EndsAs-attempt, EndsAs-relabel, post) depth 8

    discover-token :
        EndsAs net
          (authzen_discover libs.urls libs.codec cfg entropy req)
          (authzen_discover libs.urls libs.codec (with_token other cfg) entropy req)
    unfolding authzen_discover
    discover-token =
        let get = λ (url : Bytes).
          get_json-token net ignores libs.urls cfg other entropy url libs.codec.metadata in
        search (EndsAs-attempt, EndsAs-relabel, get)

    -- A call's result or error does not depend on the configured token, where the network's replies do
    -- not depend on the header Authorization.
    pub handler-token :
        (t : Tool)
        → answer net (handler libs cfg t entropy req)
          ≡ answer net (handler libs (with_token other cfg) t entropy req)
    unfolding handle_policy handle_evaluate handle_batch handle_discover evaluate_policy read_policy
        capabilities sandbox_hint prepare report_run
    handler-token evaluate_policy_tool = refl
    handler-token authzen_evaluate_tool = EndsAs-relabel net authzen_failed _ _ _ evaluate-token
    handler-token authzen_evaluate_batch_tool = EndsAs-relabel net authzen_failed _ _ _ batch-token
    handler-token authzen_discover_tool = EndsAs-relabel net authzen_failed _ _ _ discover-token
