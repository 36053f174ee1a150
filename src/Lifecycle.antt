-- ===== src/Lifecycle.antt =====
-- app/lifecycle: the policy that a file gets, and the state machines of uploads and files.
pub mod Mode
pub mod Policy
pub mod StateMachine
