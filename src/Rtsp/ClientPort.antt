-- ===== src/Rtsp/ClientPort.antt =====
-- `ParseRtspRequest` of src/libs/TcpConnection.cpp: the ports that a SETUP names.
pub mod Printed
pub mod Ending
use payloader.Base.{
  ℕ, zero, suc, ◌+◌, ◌-◌, List, [], ◌∷◌, ◌++◌, Bool, true, false, Option, none, some, ltb,
  if◌then◌else◌, Bytes, take, drop, length, Outcome, ok, fault, ◌>>=◌, u16,
}
use payloader.Rtsp.{codes}
use payloader.Rtsp.Strings.{string_at, strstr, atoi}

-- `sizeof(CP)`
abbrev pub cp_size : ℕ
cp_size = 1024

-- A zero is written to an offset of the block.
abbrev pub cut_at : ℕ → Bytes → Bytes
cut_at n block = take n block ++ (0 ∷ drop (suc n) block)

-- `m_ClientRTPPort` and `m_ClientRTCPPort`
pub record Ports : Type 0 where
  pub client_rtp_port : ℕ
  pub client_rtcp_port : ℕ

-- The ports in the string `CP`.
unfoldable pub ports_of : (cp : Bytes) → Ports → Outcome Ports
ports_of cp old = elim (strstr cp (codes "-")) [
  | none ↦ ok old
  | some dash ↦ atoi (take dash cp) >>= λ port.
      ok (record { client_rtp_port = u16 port; client_rtcp_port = u16 (u16 port + 1) })
]

-- `strcpy` of a part of a string to its front. It is undefined where the two places overlap: where the
-- part and its zero are longer than what stands in front of the part.
abbrev pub strcpy_down : (from : ℕ) → Bytes → Outcome Bytes
strcpy_down from string =
    let part = drop from string in if ltb (length part) from then ok part else fault

-- The line from `client_port` on is in `CP`, if it fits with its zero.
unfoldable pub line_ports : (line : Bytes) → Ports → Outcome Ports
line_ports line old =
    if ltb (length line) cp_size
    then elim (strstr line (codes "=")) [
      | none ↦ ok old
      | some equals ↦ strcpy_down (equals + 1) line >>= λ cp. ports_of cp old
    ]
    else fault

-- The line with the ports is cut off in the copy of the request, whose string is `text`.
unfoldable pub text_ports : (text cur_request : Bytes) → Ports → Outcome (Bytes × Ports)
text_ports text cur_request old = elim (strstr text (codes "client_port")) [
  | none ↦ ok (cur_request, old)
  | some at ↦ elim (strstr (drop at text) (13 ∷ 10 ∷ [])) [
    | none ↦ ok (cur_request, old)
    | some end ↦ line_ports (take end (drop at text)) old >>= λ ports.
        ok (cut_at (at + end) cur_request, ports)
  ]
]

unfoldable pub client_ports : (cur_request : Bytes) → Ports → Outcome (Bytes × Ports)
client_ports cur_request old = string_at cur_request >>= λ text. text_ports text cur_request old
