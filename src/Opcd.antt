-- ===== src/Opcd.antt =====
-- opcd/: the daemon that answers control frames.
pub mod FaultProbe
pub mod State
pub mod Validators
pub mod Session
pub mod IpList
pub mod IpChange
pub mod IndicationConfig
pub mod Indication
pub mod Tick
pub mod RadioChecks
pub mod Persist
pub mod RadioRestore
pub mod IplistText
pub mod IplistLoad
pub mod Channel
pub mod DeviceInfo
pub mod Machine
pub mod Intake
pub mod Dispatch
