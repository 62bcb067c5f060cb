-- ===== src/Examples/Media.antt =====
-- A frame of three bytes through src/libs/Packager.cpp and src/libs/Unpackager.cpp.
use native.Mathlib.Nat.{div-add-mod', mod-lt}
use payloader.Base.{
  ℕ, ◌*◌, ◌/◌, ◌≡◌, refl, arith, [], ◌∷◌, true, some, timeout, u32, u64, pos, negsuc, Bytes,
  replicate, length-replicate,
}
use payloader.Interfaces.{AvPacket, AvMediaType}
use payloader.Packager.{Packager, rtp_timestamp, receive_packet}
use payloader.Packager.Frame.{IsReady, Packaged, receive_packet-Packaged, receive_packet-empty}
use payloader.Receiver.{Receiver}
use payloader.Pipeline.EndToEnd.{Transported, receive_packet-Transported}
use payloader.Pipeline.Timing.{Rescales, TwoFrames, rtp_timestamp-mul, finish_frame-dts}
use payloader.Rtp.Header.{RtpHeader, new_header, get_timestamp, set_timestamp}
use payloader.Base.{◌+◌, swap32}

-- The documented behaviour: multiply, and divide with the nearest result.
abbrev rescale : ℕ → ℕ → ℕ → ℕ
rescale a b c = (a * b + c / 2) / c

rescale-Rescales : Rescales rescale
rescale-Rescales a b c nonzero small_a small_b small_c fits =
    let split = div-add-mod' (a * b + c / 2) c in
    let rest = mod-lt (a * b + c / 2) nonzero in (omega arith, omega arith)

abbrev zeros : Bytes
zeros = replicate 2000 0

abbrev ready : Packager
ready = record { sink = true; video_seq_num = 5; out_buff = some zeros; rtp_buffer = some zeros }

ready-IsReady : IsReady ready
ready-IsReady = record {
  has_sink = refl;
  out_block = zeros;
  has_out = refl;
  out_size = length-replicate {A = ℕ} 2000 0;
  rtp_block = zeros;
  has_rtp = refl;
  rtp_size = length-replicate {A = ℕ} 2000 0;
}

abbrev frame : AvPacket
frame = record { bytes = 1 ∷ 2 ∷ 3 ∷ []; size = 3; dts = 40 }

abbrev no_frame : AvPacket
no_frame = record { bytes = []; size = 0; dts = 40 }

receive_packet-Packaged_example : Packaged rescale 0 1 1000 frame ready
receive_packet-Packaged_example =
    receive_packet-Packaged rescale 0 1 1000 frame ready ready-IsReady (omega arith) (omega arith)
      (omega arith) (omega arith)

receive_packet-empty_example :
    receive_packet rescale 0 9 1000 no_frame AvMediaType.video ready ≡ timeout
receive_packet-empty_example =
    receive_packet-empty rescale 0 9 1000 no_frame ready ready-IsReady refl

packaged : Packaged rescale 0 1 1000 frame ready
packaged =
    receive_packet-Packaged rescale 0 1 1000 frame ready ready-IsReady (omega arith) (omega arith)
      (omega arith) (omega arith)

rtp_timestamp-mul_example : u64 (rtp_timestamp rescale 1000 (u32 40)) ≡ 3600
rtp_timestamp-mul_example =
    rtp_timestamp-mul rescale 1000 40 rescale-Rescales (omega arith) (omega arith)

-- A header with a timestamp.
abbrev stamped : ℕ → RtpHeader
stamped t = set_timestamp t (new_header 0)

finish_frame-dts_example :
    TwoFrames (stamped 3600) (stamped 7200) (1 ∷ 2 ∷ []) (3 ∷ []) 2 1 (pos 0) (pos 40)
unfolding rtp_timestamp get_timestamp set_timestamp swap32
finish_frame-dts_example =
    finish_frame-dts rescale 1000 1040 40 80 (stamped 3600) (stamped 7200) (1 ∷ 2 ∷ []) (3 ∷ []) 2 1
      rescale-Rescales (omega arith) (omega arith) (omega arith) (omega arith) refl refl
      (omega arith) (omega arith) (omega arith) (omega arith)

abbrev receiver : Receiver
receiver = record { sink = true; pending = true; buffer = zeros }

receive_packet-Transported_example :
    Transported rescale 0 1 1000 frame ready
      (replicate 1500 0)
      receiver
      (9 ∷ 9 ∷ 9 ∷ 9 ∷ [])
      (negsuc 0)
receive_packet-Transported_example =
    receive_packet-Transported rescale 0 1 1000 frame ready (replicate 1500 0) receiver
      (9 ∷ 9 ∷ 9 ∷ 9 ∷ []) (negsuc 0) (omega arith) ready-IsReady (omega arith) (omega arith)
      (omega arith) (omega arith) (omega arith) (length-replicate {A = ℕ} 1500 0) refl refl
      (omega (arith, length-replicate {A = ℕ} 2000 0))
