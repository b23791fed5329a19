-- ===== src/Approval.antt =====
-- billing_approval.py, billing_policy.py and store/billing.py: the approval of a billing draft.
pub mod Lines
pub mod Totals
pub mod Policy
pub mod Reconciliation
mod Passed
mod Balance
pub mod Participants
pub mod Snapshots
mod Rounding
mod Settlement
pub mod Numbers
mod Fresh
pub mod Issue
mod Issued
mod Approved
mod Bounds
mod Tests
