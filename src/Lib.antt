-- ===== src/Lib.antt =====
-- mcp-opa-authz is an MCP server with four tools. evaluate_policy evaluates a Rego policy in the
-- process, with OPA; authzen_evaluate, authzen_evaluate_batch and authzen_discover talk to an
-- AuthZEN decision point over HTTP. main.go reads the configuration from the environment once and
-- serves the tools over stdio; each tool is one call that reads its arguments, does its work within
-- the configured bounds, and ends with a structured result or an error.
--
-- Base holds what all modules share: lists, results, Boolean tests and texts. A text is the list of
-- its bytes; names of arguments, variables and members are native texts. Text models what the
-- source calls of package strings (HasSuffix, TrimSuffix, TrimSpace, Cut, Contains, ToLower, Split,
-- TrimRight) and the cutting of a text with a mark.
--
-- Config models config.go: Config/Load is `config`, `loadConfig`, `durationEnv`, `int64Env` and
-- `boolEnv`, Config/Numbers the readers of package strconv as they are called there,
-- Config/Messages the texts of the errors, Config/Laws what loading promises, Config/Errors and
-- Config/Bounds what its failures and its bounds are. A bound is a natural number, since a value
-- that is not positive is refused.
--
-- Json holds the values that encoding/json decodes to. Args models args.go: Args/Read is
-- `requiredString`, `optionalJSON`, `jsonObjectArg`, `asJSONObject` and `jsonKind`; Args/Laws says
-- what they accept.
--
-- Pdp models authzen.go. Pdp/Wire is the wire types, Pdp/Url is `validatePDPURL`,
-- `resolveEndpoint`, `resolveFromRoot` and `rootOf` with `batchEndpointFrom` of tool_authzen.go,
-- Pdp/Client the `pdpClient` with `postJSON`, `getJSON`, `do`, `setAuth`, `hasAuthScheme`,
-- `statusHint`, `snippet` and `newRequestID`. Pdp/Exchange is the type of a computation that sends
-- requests and goes on with the replies; `answer` and `requests` run it against a network.
-- Endpoint, Roots and Known are about URLs, Auth, RequestId, Token, Reply and Calls about requests
-- and replies.
--
-- Authzen models tool_authzen.go: Authzen/Entities is `readEvaluationArgs`, `validateEntities` and
-- `requireMembers`, Authzen/Entries `readEvaluationEntries`, Authzen/Handlers the three handlers,
-- Authzen/Output the results with the member names and `omitempty` of their tags, Authzen/Codec the
-- codecs. OutputLaws is about the results, EntityLaws, RequestLaws, EntryLaws and EntryErrors are
-- about what is read, EvaluateLaws, BatchLaws, BatchResults, Numbering, Alignment and DiscoverLaws
-- about what the handlers end with, SendLaws, BatchBody, BatchSends and DiscoverSends about what
-- they send. Authzen/DecisionPoint and Authzen/BatchDecides put a decision point with two endpoints
-- behind the network that decides by a policy, the abstract service that the tools give access to,
-- and compare what the tools report with that policy.
--
-- Opa models opa_capabilities.go and tool_opa.go: Opa/Sandbox is `capabilities`, `withoutBuiltins`
-- and `sandboxHint`, Opa/Printer the `printCollector`, Opa/Tracer the `boundedTracer`, Opa/Trace is
-- `formatTrace`, Opa/Size `encodesWithin` with its `countingWriter`, Opa/Result `evaluateResult`
-- with its tags, and Opa/Evaluate `evaluatePolicy`, with ResultMarks, EvaluateLaws, ExactLaws and
-- ResultLaws on its results, InTime and StopLaws on its failures, and SandboxUse on what it asks
-- OPA for. A method that holds its mutex throughout is one step.
--
-- Cli models `run` and `resolveVersion` of main.go: a run ends at once, or gives a server to the
-- transport and goes on from how that ends; an ending is the exit code and what was printed to
-- either stream. Cli/Laws is about runs and endings.
--
-- Server models `newServer` of main.go and the register functions of tool_opa.go and
-- tool_authzen.go. Server/Declaration has the options that `mcp.NewTool` is called with,
-- Server/PolicyTool and Server/AuthzenTools the four declarations with their texts, Server/Texts
-- the usage text and the instructions, Server/Calls the handlers with one type for their results,
-- Server/Registry the registration, and Server/Main `main`, which is `run` on that server, with
-- what it serves. ReadBack is about what is returned, Agreement and Refusal compare the
-- declarations with the handlers, Sends and Token say what a call of any tool sends and where the
-- token goes.
--
-- Tests runs the definitions on concrete input; Tests/Echo is a small decision point.
--
-- Parameters: net/url is a record of its parser and printer, with what is documented of it in
-- Pdp/Roots as UrlLaws, which Tests/Site shows to hold of a small one; the HTTP transport is a
-- function from requests to replies, a timeout being a failure to reply; encoding/json is a record
-- of decoders and encoders, with what is documented of it in Authzen/DecisionPoint as JsonLaws (raw
-- messages that are decoded are JSON, and values whose raw messages are absent or JSON encode),
-- which Tests/Echo shows to hold of a small one; OPA, given the time limit of the evaluation,
-- compiles a policy to a function from the input to what is printed, traced and found; the server
-- of mcp-go is a record of how one is made, how a tool is added and which handler a name reaches,
-- with these laws; `time.ParseDuration`, `rand.Read`, `ServeStdio`, `debug.ReadBuildInfo`, the verb
-- %q and OPA's printer of traces are functions or values. The loops are recursions on their lists,
-- so no fuel is used. `int` has the 64 bits of the platforms that are released.
--
-- Not modelled: the wording of the tools' error results (an error is a value with what its message
-- is made of), the JSON schemas that mcp-go makes of the declarations and of the result types,
-- panics that the server recovers from, and the redaction of URLs in messages.

pub mod Base
pub mod Text
pub mod Config
pub mod Json
pub mod Args
pub mod Pdp
pub mod Authzen
pub mod Opa
pub mod Cli
pub mod Server
pub mod Tests
