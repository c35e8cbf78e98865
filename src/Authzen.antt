-- ===== src/Authzen.antt =====
-- tool_authzen.go: the three tools that ask a decision point.
pub mod Output
pub mod OutputLaws
pub mod Codec
pub mod Entities
pub mod EntityLaws
pub mod RequestLaws
pub mod Entries
pub mod EntryLaws
pub mod EntryErrors
pub mod Handlers
pub mod EvaluateLaws
pub mod SendLaws
pub mod Numbering
pub mod BatchLaws
pub mod Alignment
pub mod DiscoverLaws
pub mod BatchResults
pub mod BatchBody
pub mod BatchSends
pub mod DiscoverSends
pub mod DecisionPoint
pub mod BatchDecides
