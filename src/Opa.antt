-- ===== src/Opa.antt =====
-- tool_opa.go and opa_capabilities.go: the evaluation of a policy in the process.
pub mod Sandbox
pub mod SandboxLaws
pub mod Printer
pub mod PrinterLaws
pub mod Tracer
pub mod Trace
pub mod Size
pub mod Result
pub mod ResultLaws
pub mod Evaluate
pub mod ResultMarks
pub mod EvaluateLaws
pub mod ExactLaws
pub mod InTime
pub mod StopLaws
pub mod SandboxUse
