-- ===== src/Tests.antt =====
-- The theorems at concrete values.
mod Protocol
mod Indications
mod Channels
mod Opcd
mod Writes
mod Radio
mod Lists
mod Dispatch
mod Restore
mod DeviceInfo
mod Periods
