-- ===== src/Protocol.antt =====
-- protocol/: the wire codec of the control protocol.
pub mod Ids
pub mod Codec
pub mod CString
pub mod Frame
pub mod Commands
pub mod Indications
pub mod ScanChlist
