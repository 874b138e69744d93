-- ===== src/Examples.antt =====
-- Runs on concrete inputs, and each theorem that has hypotheses at an input that meets them.
pub mod GateRuns
pub mod SensorRuns
pub mod SmbiosRuns
pub mod UsmRuns
pub mod DiskRuns
pub mod TableRuns
pub mod ServiceRuns
pub mod SmartRuns
pub mod MibRuns
pub mod EngineRuns
pub mod StorageRuns
pub mod InterfaceRuns
