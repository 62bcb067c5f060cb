-- ===== src/Examples/Rtp.antt =====
-- Concrete headers and fragments of src/libs/rtp.
use payloader.Base.{◌≡◌, arith, List, [], ◌∷◌, ok, false, take, Bytes}
use payloader.Rtp.Header.{RtpHeader, IsHeader, new_header, get_seq_number, get_timestamp, get_ssrc}
use payloader.Rtp.Header.Calls.{SetCall, set_all, fields, assign_all, set_all-assign_all}
use payloader.Rtp.Header.Accessors.{new_header-IsHeader}
use payloader.Rtp.Header.Image.{image}
use payloader.Rtp.Header.Wire.{fixed_header, image-fixed_header}
use payloader.Rtp.Extensions.{AbsSendTimeExtension}
use payloader.Rtp.Fragmenter.{Fragment, RtpFragmenter, new_fragmenter}
use payloader.Rtp.Fragmenter.Tiling.{Tiles, new_fragmenter-Tiles}

abbrev plain : RtpHeader
plain = new_header 7

plain-IsHeader : IsHeader plain
plain-IsHeader = new_header-IsHeader 7 (omega arith)

image-fixed_header_example :
    take 12 (image plain)
    ≡ fixed_header 2 0 0 0 0 0 (get_seq_number plain) (get_timestamp plain) (get_ssrc plain)
image-fixed_header_example = image-fixed_header plain plain-IsHeader

abbrev eight : Bytes
eight = 1 ∷ 2 ∷ 3 ∷ 4 ∷ 5 ∷ 6 ∷ 7 ∷ 8 ∷ []

abbrev send_time : AbsSendTimeExtension
send_time = record { ext_info = 50; abs_data = 0 }

new_fragmenter-Tiles_example :
    (fs : List Fragment) × (new_fragmenter (1 ∷ 2 ∷ []) 2
      ≡ ok (record { total_data = 1 ∷ 2 ∷ []; total_lenth = 2; fragment_queue = fs }))
    × Tiles 0 2 fs
new_fragmenter-Tiles_example = new_fragmenter-Tiles (1 ∷ 2 ∷ []) 2 (omega arith)

abbrev piece : Fragment
piece = record { position = 1; size = 2; first = false }

abbrev three_bytes : RtpFragmenter
three_bytes = record { total_data = 1 ∷ 2 ∷ 3 ∷ []; total_lenth = 3; fragment_queue = piece ∷ [] }

abbrev calls : List SetCall
calls = SetCall.marker 3 ∷ SetCall.cc 17 ∷ SetCall.ssrc 55543 ∷ []

set_all-assign_all_example : fields (set_all calls plain) ≡ assign_all calls (fields plain)
set_all-assign_all_example = set_all-assign_all calls plain
