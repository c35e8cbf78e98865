-- ===== src/Server.antt =====
-- The tools as they are offered: main.go's `newServer`, and the register functions of tool_opa.go
-- and tool_authzen.go.
pub mod Declaration
pub mod PolicyTool
pub mod AuthzenTools
pub mod Texts
pub mod Calls
pub mod Registry
pub mod Agreement
pub mod Refusal
pub mod Main
pub mod Sends
pub mod Token
pub mod ReadBack
