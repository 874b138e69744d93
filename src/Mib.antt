-- ===== src/Mib.antt =====
-- The MIB snapshot and the controller that answers requests from it (deploy/jt_agent.py).
pub mod Oid
pub mod Bisect
pub mod Value
pub mod Size
pub mod Controller
pub mod Snapshot
