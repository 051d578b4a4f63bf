-- ===== src/Lifecycle.antt =====
-- internal/app: the lifecycle of a knowledge object. `Validate` is validate_object.go, `Debate` is
-- object_debate_helpers.go, object_debate_decide.go and object_debate_resolve.go.
pub mod Log
pub mod Validate
pub mod Debate
pub mod Write
pub mod Steps
pub mod Refine
pub mod Trail
pub mod Accounts
pub mod Terminal
pub mod Contract
pub mod Success
