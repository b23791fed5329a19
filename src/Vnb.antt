-- ===== src/Vnb.antt =====
-- store/vnb_exchange.py: the mutations of participants that a community sends to its grid operator.
-- Identifiers, fingerprints and texts of the operator are numbers, which the program only compares
-- and stores; `facts` stands for the columns of the mutation that no operation reads or changes.
pub mod Rows
pub mod Operations
pub mod Cases
pub mod Final
mod Tests
