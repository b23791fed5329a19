-- ===== src/Invoices.antt =====
-- The second half of store/billing.py: the life of issued invoices. `State` holds the tables and
-- the helpers, the next five modules the operations, the last ones what holds of them.
pub mod State
pub mod Delivery
pub mod Transitions
pub mod Correction
pub mod Bank
pub mod Confirm
pub mod Log
pub mod Reach
pub mod Account
pub mod Scene
mod Tests
