-- ===== src/Authzen/Codec.antt =====
-- The calls of encoding/json that tool_authzen.go makes, as a parameter: one decoder for each type
-- that it decodes into, and the encoders of request bodies and results.
pub use mcp_opa.Authzen.Output.{EvaluateOutput, BatchDecision, BatchOutput, DiscoverOutput}
use mcp_opa.Authzen.Output.{Object, evaluate_object, batch_object, discover_object}
use mcp_opa.Json.{Value, RawObject, RawArray, Decode, Encode}
use mcp_opa.Pdp.Wire.{
  EvaluationRequest, EvaluationResponse, EvaluationsResponse, PdpMetadata, Members,
}

pub record Codec : Type 0 where
  pub any : Decode Value
  pub members : Decode RawObject
  pub array : Decode RawArray
  pub request : Decode EvaluationRequest
  pub response : Decode EvaluationResponse
  pub responses : Decode EvaluationsResponse
  pub metadata : Decode PdpMetadata
  pub encode : Encode Members
  pub encode_result : Encode Object

-- What `json.MarshalIndent` gives for the three results.
abbrev pub encode_evaluate : Codec → Encode EvaluateOutput
encode_evaluate codec v = codec.encode_result (evaluate_object v)

abbrev pub encode_batch : Codec → Encode BatchOutput
encode_batch codec v = codec.encode_result (batch_object v)

abbrev pub encode_discover : Codec → Encode DiscoverOutput
encode_discover codec v = codec.encode_result (discover_object v)
