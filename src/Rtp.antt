-- ===== src/Rtp.antt =====
-- src/libs/rtp: the RTP headers and the fragmenter.
pub mod Header
pub mod Extensions
pub mod Fragmenter
