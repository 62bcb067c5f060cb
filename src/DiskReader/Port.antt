-- ===== src/DiskReader/Port.antt =====
-- `PortSetter`, `PortGetter` and `SenderStart` of src/libs/RtspReader_fromDisk.cpp.
use payloader.Base.{
  ◌≡◌, ℤ, List, [], ◌∷◌, Bool, Option, none, Bytes, Outcome, ok, fault, ◌>>=◌, access,
  if◌then◌else◌,
}
use payloader.Rtsp.{codes}

-- A call of `RtpReceiver::init` with a host and a port.
pub record InitCall : Type 0 where
  pub url : Bytes
  pub port : Bytes

abbrev pub port_getter : (puerto : ℤ) → ℤ
port_getter puerto = puerto

-- The number of the port is used as the address of a string: `memory` gives the string at an address
-- that has one.
unfoldable pub port_setter :
    (memory : ℤ → Option Bytes) (sink : Bool) (puerto : ℤ) → Outcome (List InitCall)
port_setter memory sink puerto = access (memory puerto) >>= λ port.
    (let call : InitCall = record { url = codes "localhost"; port = port } in
      if sink then ok (call ∷ []) else fault)

abbrev pub sender_start :
    (memory : ℤ → Option Bytes) (sink : Bool) (puerto : ℤ) → Outcome (List InitCall)
sender_start = port_setter

-- A port that is not the address of a string by chance is not set.
pub sender_start-fault :
    (memory : ℤ → Option Bytes) (sink : Bool) (puerto : ℤ)
    → memory puerto ≡ none
    → sender_start memory sink puerto ≡ fault
unfolding port_setter
sender_start-fault memory sink puerto unmapped = rw (port_setter, unmapped)
