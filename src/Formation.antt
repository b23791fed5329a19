-- ===== src/Formation.antt =====
-- store/formation.py, formation_wizard.py and store/formation_activation.py: how a community comes
-- into being, and how it is activated on the evidence of the grid operator.
pub mod Membership
pub mod Admission
pub mod Activation
pub mod Start
mod Tests
