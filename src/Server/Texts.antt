-- ===== src/Server/Texts.antt =====
-- main.go: the constants `usage` and `instructions`.
use mcp_opa.Base.{String}

abbrev pub usage : String
usage =
    "mcp-opa-authz — MCP server exposing OPA/Rego evaluation and an OpenID AuthZEN 1.0 PDP.\n\nUsage:\n  mcp-opa-authz             Run as an MCP stdio server (default).\n  mcp-opa-authz --version   Print version.\n  mcp-opa-authz --help      Print this message.\n\nTools exposed:\n  evaluate_policy         Evaluate a Rego module against an input document,\n                          in-process. No external service is contacted.\n  authzen_evaluate        Ask an AuthZEN 1.0 PDP for one decision.\n  authzen_evaluate_batch  Ask an AuthZEN 1.0 PDP for many decisions at once.\n  authzen_discover        Read a PDP's /.well-known/authzen-configuration.\n\nConfiguration (environment):\n  AUTHZEN_PDP_URL                 Default Access Evaluation endpoint, e.g.\n                                  http://localhost:8181/access/v1/evaluation\n  AUTHZEN_PDP_TOKEN               Authorization header value. A value with no\n                                  scheme is sent as \"Bearer <token>\".\n  AUTHZEN_PDP_TIMEOUT             Per-request timeout (default 10s).\n  AUTHZEN_PDP_MAX_RESPONSE_BYTES  Response read limit (default 1048576).\n  MCP_OPA_EVAL_TIMEOUT            Rego evaluation timeout (default 5s).\n  MCP_MAX_ARG_BYTES               Per-argument size limit (default 1048576).\n  MCP_OPA_ALLOW_NETWORK_BUILTINS  Re-enable http.send, net.lookup_ip_addr and\n                                  opa.runtime inside evaluated policies. Off by\n                                  default: policies evaluated here come from a\n                                  model and run inside this process.\n\nConfigure with an MCP client (Claude Code):\n  claude mcp add opa-authz --env AUTHZEN_PDP_URL=http://localhost:8181/access/v1/evaluation -- mcp-opa-authz\n\nDocumentation: https://github.com/kanywst/mcp-opa-authz"

abbrev pub instructions : String
instructions =
    "Authorization answers from real policy code.\n\nPick the tool by where the authoritative answer lives:\n\n- evaluate_policy — you have the Rego source. Authoring, debugging, \"what would\n  this policy say\". Runs in-process; nothing external is contacted.\n- authzen_evaluate — the answer must come from the PDP that governs the running\n  system. Do not paste a policy and evaluate it locally as a substitute for\n  this; a local evaluation is a guess about production.\n- authzen_evaluate_batch — the same question over a list. Filtering resources a\n  subject may see, or checking several actions at once, in one round trip.\n- authzen_discover — a PDP's URL is known but its endpoints are not.\n\nA decision of false is a deny, and is a successful call. A tool error means no\ndecision was obtained; never report one as the other."
