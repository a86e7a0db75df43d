-- ===== src/Approval.antt =====
-- internal/approval/store.go: the gate that holds a run until an operator decides.
mod Defs
pub mod Settle
pub mod Wire
pub mod Steps
pub use Defs.{
  Decision, approved, denied, Decision-discrete, Record, DecisionMsg, Gate, InProcess, grants,
  refuses, errors,
}
unfoldable pub use Defs.{new_gate, settle, abandon, in_process_msg, wait_canceled, wait_settled}
