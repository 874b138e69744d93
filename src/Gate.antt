-- ===== src/Gate.antt =====
-- The gate in front of the decoder (deploy/preauth.py).
pub mod Address
pub mod Tlv
pub mod Defs
pub mod Order
pub mod Table
pub mod Rate
