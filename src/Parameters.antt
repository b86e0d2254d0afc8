-- ===== src/Parameters.antt =====
-- The parameters of a class: modal/_type_manager.py (how a value of each type is encoded, decoded and checked)
-- and modal/_serialization.py (whole sets of parameters, their defaults and their schema).
pub mod Values
pub mod Sets
pub mod Formats
pub mod RoundTrip
pub mod Typed
pub mod Compatible
mod Examples
