-- ===== src/Server/Calls.antt =====
-- The handlers that the register functions pass to mcp-go: a request becomes a result, an error
-- result, or a request to the decision point first. `mcp.CallToolResult` is the result, or what the
-- error result says.
use mcp_opa.Base.{List, Option, Bytes}
use mcp_opa.Config.Load.{Config}
use mcp_opa.Args.Read.{Request}
use mcp_opa.Pdp.Url.{UrlPackage}
use mcp_opa.Pdp.Exchange.{Exchange, done, ◌>>=◌, attempt, relabel}
use mcp_opa.Authzen.Codec.{Codec, EvaluateOutput, BatchOutput, DiscoverOutput}
use mcp_opa.Authzen.Handlers.{
  ToolError, Structured, authzen_evaluate, authzen_evaluate_batch, authzen_discover,
}
use mcp_opa.Opa.Sandbox.{Capabilities}
use mcp_opa.Opa.Evaluate.{Engine, OpaCodec, OpaError, EvaluateResult, evaluate_policy}
use mcp_opa.Server.Declaration.{Declaration}
use mcp_opa.Server.PolicyTool.{policy_tool}
use mcp_opa.Server.AuthzenTools.{evaluate_tool, batch_tool, discover_tool}

pub data ToolResult : Type 0 where
  evaluated : EvaluateResult → Bytes → ToolResult
  decided : Structured EvaluateOutput → ToolResult
  batched : Structured BatchOutput → ToolResult
  discovered : Structured DiscoverOutput → ToolResult

pub data Failure : Type 0 where
  policy_failed : OpaError → Failure
  authzen_failed : ToolError → Failure

-- A handler: what `rand.Read` gives, and the request.
abbrev pub Handler : Type 0
Handler = Option Bytes → Request → Exchange Failure ToolResult

-- What the handlers use of the libraries.
pub record Libraries (Decl Rest Event : Type 0) : Type 0 where
  pub urls : UrlPackage
  pub codec : Codec
  pub opa_codec : OpaCodec
  pub engine : Engine Decl Rest Event
  pub base : Capabilities Decl Rest
  pub pretty : List Event → Bytes

pub data Tool : Type 0 where
  evaluate_policy_tool authzen_evaluate_tool authzen_evaluate_batch_tool authzen_discover_tool :
      Tool

abbrev pub declaration : Tool → Declaration
declaration evaluate_policy_tool = policy_tool
declaration authzen_evaluate_tool = evaluate_tool
declaration authzen_evaluate_batch_tool = batch_tool
declaration authzen_discover_tool = discover_tool

module _ {Decl Rest Event : Type 0} (libs : Libraries Decl Rest Event) (cfg : Config) where
  unfoldable pub handle_policy : Handler
  handle_policy entropy req = do
    out ←
        attempt policy_failed
          (evaluate_policy libs.engine libs.base libs.pretty libs.opa_codec cfg req)
    done (evaluated out.0 out.1)

  unfoldable pub handle_evaluate : Handler
  handle_evaluate entropy req = do
    out ← relabel authzen_failed (authzen_evaluate libs.urls libs.codec cfg entropy req)
    done (decided out)

  unfoldable pub handle_batch : Handler
  handle_batch entropy req = do
    out ← relabel authzen_failed (authzen_evaluate_batch libs.urls libs.codec cfg entropy req)
    done (batched out)

  unfoldable pub handle_discover : Handler
  handle_discover entropy req = do
    out ← relabel authzen_failed (authzen_discover libs.urls libs.codec cfg entropy req)
    done (discovered out)

  abbrev pub handler : Tool → Handler
  handler evaluate_policy_tool = handle_policy
  handler authzen_evaluate_tool = handle_evaluate
  handler authzen_evaluate_batch_tool = handle_batch
  handler authzen_discover_tool = handle_discover
