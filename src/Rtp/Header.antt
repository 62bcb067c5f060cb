-- ===== src/Rtp/Header.antt =====
-- src/libs/rtp/RtpHeaders.h, class RtpHeader. A field holds the value of its C++ member: a bit-field
-- below its width, and the multi-byte fields in network order, as `htons` and `htonl` leave them.
pub mod Image
pub mod Accessors
pub mod Calls
pub mod Wire
pub mod Front
use payloader.Base.{ℕ, ◌+◌, ◌*◌, ◌^◌, ◌<◌, swap16, swap32, low_bits, u8, u16, u32}

pub record RtpHeader : Type 0 where
  pub cc : ℕ
  pub hasextension : ℕ
  pub padding : ℕ
  pub version : ℕ
  pub payloadtype : ℕ
  pub marker : ℕ
  pub seqnum : ℕ
  pub timestamp : ℕ
  pub ssrc : ℕ
  pub extensionpayload : ℕ
  pub extensionlength : ℕ
  pub extensions : ℕ

abbrev pub min_size : ℕ
min_size = 12

-- The constructor leaves `extensions` as the memory has it.
abbrev pub new_header : ℕ → RtpHeader
new_header garbage = record {
  cc = 0;
  hasextension = 0;
  padding = 0;
  version = 2;
  payloadtype = 0;
  marker = 0;
  seqnum = 0;
  timestamp = 0;
  ssrc = 0;
  extensionpayload = 0;
  extensionlength = 0;
  extensions = garbage;
}

abbrev pub has_padding : RtpHeader → ℕ
has_padding h = u8 h.padding

abbrev pub get_version : RtpHeader → ℕ
get_version h = u8 h.version

abbrev pub set_version : ℕ → RtpHeader → RtpHeader
set_version v h = record h { version = low_bits 2 (u8 v) }

abbrev pub get_marker : RtpHeader → ℕ
get_marker h = u8 h.marker

abbrev pub set_marker : ℕ → RtpHeader → RtpHeader
set_marker v h = record h { marker = low_bits 1 (u8 v) }

abbrev pub get_extension : RtpHeader → ℕ
get_extension h = u8 h.hasextension

abbrev pub set_extension : ℕ → RtpHeader → RtpHeader
set_extension v h = record h { hasextension = low_bits 1 (u8 v) }

abbrev pub get_cc : RtpHeader → ℕ
get_cc h = u8 h.cc

abbrev pub set_cc : ℕ → RtpHeader → RtpHeader
set_cc v h = record h { cc = low_bits 4 (u8 v) }

abbrev pub get_payload_type : RtpHeader → ℕ
get_payload_type h = u8 h.payloadtype

abbrev pub set_payload_type : ℕ → RtpHeader → RtpHeader
set_payload_type v h = record h { payloadtype = low_bits 7 (u8 v) }

unfoldable pub get_seq_number : RtpHeader → ℕ
get_seq_number h = swap16 h.seqnum

unfoldable pub set_seq_number : ℕ → RtpHeader → RtpHeader
set_seq_number v h = record h { seqnum = swap16 (u16 v) }

unfoldable pub get_timestamp : RtpHeader → ℕ
get_timestamp h = swap32 h.timestamp

unfoldable pub set_timestamp : ℕ → RtpHeader → RtpHeader
set_timestamp v h = record h { timestamp = swap32 (u32 v) }

unfoldable pub get_ssrc : RtpHeader → ℕ
get_ssrc h = swap32 h.ssrc

unfoldable pub set_ssrc : ℕ → RtpHeader → RtpHeader
set_ssrc v h = record h { ssrc = swap32 (u32 v) }

unfoldable pub get_ext_id : RtpHeader → ℕ
get_ext_id h = swap16 h.extensionpayload

unfoldable pub set_ext_id : ℕ → RtpHeader → RtpHeader
set_ext_id v h = record h { extensionpayload = swap16 (u16 v) }

unfoldable pub get_ext_length : RtpHeader → ℕ
get_ext_length h = swap16 h.extensionlength

unfoldable pub set_ext_length : ℕ → RtpHeader → RtpHeader
set_ext_length v h = record h { extensionlength = swap16 (u16 v) }

-- At most 12 + 15 * 4 + 4 + 65535 * 4, so the sum fits an `int`.
unfoldable pub get_header_length : RtpHeader → ℕ
get_header_length h = min_size + h.cc * 4 + h.hasextension * (4 + swap16 h.extensionlength * 4)

-- Every field fits the width of its member.
pub record IsHeader (h : RtpHeader) : Type 0 where
  pub cc_fits : h.cc < 2 ^ 4
  pub hasextension_fits : h.hasextension < 2
  pub padding_fits : h.padding < 2
  pub version_fits : h.version < 2 ^ 2
  pub payloadtype_fits : h.payloadtype < 2 ^ 7
  pub marker_fits : h.marker < 2
  pub seqnum_fits : h.seqnum < 2 ^ 16
  pub timestamp_fits : h.timestamp < 2 ^ 32
  pub ssrc_fits : h.ssrc < 2 ^ 32
  pub extensionpayload_fits : h.extensionpayload < 2 ^ 16
  pub extensionlength_fits : h.extensionlength < 2 ^ 16
  pub extensions_fits : h.extensions < 2 ^ 32
