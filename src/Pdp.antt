-- ===== src/Pdp.antt =====
-- authzen.go: the wire types of AuthZEN 1.0 and the client of a policy decision point.
pub mod Wire
pub mod Exchange
pub mod Url
pub mod Client
pub mod Auth
pub mod Reply
pub mod Calls
pub mod Endpoint
pub mod Roots
pub mod Known
pub mod RequestId
pub mod Token
