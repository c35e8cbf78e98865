-- ===== src/Args.antt =====
-- args.go: the decoding of tool arguments.
pub mod Read
pub mod Laws
