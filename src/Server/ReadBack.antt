-- ===== src/Server/ReadBack.antt =====
-- What the tools return loses nothing of their results.
use mcp_opa.Base.{◌≡◌, some}
use mcp_opa.Authzen.Output.{
  EvaluateOutput, BatchOutput, DiscoverOutput, evaluate_object, batch_object, discover_object,
}
use mcp_opa.Authzen.OutputLaws.{
  read_evaluate, read_batch, read_discover, read_evaluate-evaluate_object, read_batch-batch_object,
  read_discover-discover_object,
}
use mcp_opa.Opa.Result.{EvaluateResult, result_members}
use mcp_opa.Opa.ResultLaws.{read_result, read_result-result_members}

-- The results of the four tools can be read back from the members that are encoded. A decision, and
-- whether a query was defined, are members of their own, a deny and an undefined query as well; the
-- decisions of a batch keep their places, contexts and order; and what `omitempty` leaves out is
-- false or empty.
pub results_read_back :
    (r : EvaluateResult) (v : EvaluateOutput) (b : BatchOutput) (x : DiscoverOutput)
    → (read_result (result_members r) ≡ some r)
      × (read_evaluate (evaluate_object v) ≡ some v)
      × (read_batch (batch_object b) ≡ some b)
      × (read_discover (discover_object x) ≡ some x)
results_read_back r v b x = (
  read_result-result_members r,
  read_evaluate-evaluate_object v,
  read_batch-batch_object b,
  read_discover-discover_object x,
)
