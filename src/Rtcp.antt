-- ===== src/Rtcp.antt =====
-- src/libs/rtp/RtpHeaders.h, class RtcpHeader.
pub mod Header
pub mod Reports
pub mod Views
pub mod Remb
