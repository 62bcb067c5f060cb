-- ===== src/Streamer.antt =====
-- src/libs/Streamer.cpp: `InitTransport` looks for a pair of ports for RTP and RTCP. The operating
-- system is a parameter: it says at which ports a `bind` succeeds.
pub mod Ports
pub mod Streaming
use payloader.Base.{
  ℕ, zero, suc, ◌+◌, Bool, true, false, Option, none, some, ltb, if◌then◌else◌, u16, Outcome, ok,
  timeout,
}

-- A socket is the port that it is bound to, or `none` once it is closed.
pub record Streamer : Type 0 where
  pub rtp_socket : Option ℕ
  pub rtcp_socket : Option ℕ
  pub rtp_client_port : ℕ
  pub rtcp_client_port : ℕ
  pub rtp_server_port : ℕ
  pub rtcp_server_port : ℕ
  pub tcp_transport : Bool

module _ (binds : ℕ → Bool) where
  -- The body of the loop for the port `p`; the flag says whether the loop breaks.
  unfoldable pub try_pair : ℕ → Streamer → Streamer × Bool
  try_pair p s = elim (binds p) [
    | true ↦ elim (binds (p + 1)) [
      | true ↦ (
        record s {
          rtp_socket = some p;
          rtcp_socket = some (p + 1);
          rtp_server_port = p;
          rtcp_server_port = u16 (p + 1);
        },
        true,
      )
      | false ↦ (record s { rtp_socket = none; rtcp_socket = none }, false)
    ]
    | false ↦ (record s { rtp_socket = none }, false)
  ]

  -- `for (u_short P = 6970; P < 0xFFFE; P += 2)`, on fuel.
  pub search : ℕ → ℕ → Streamer → Outcome Streamer
  search zero p s = if ltb p 0xfffe then timeout else ok s
  search (suc rounds) p s = elim (ltb p 0xfffe) [
    | true ↦
        let (t, found) = try_pair p s in
        elim found [ true ↦ ok t | false ↦ search rounds (u16 (p + 2)) t ]
    | false ↦ ok s
  ]

  -- From 6970 on, 29282 rounds reach the bound.
  pub init_transport : (rtp_port rtcp_port : ℕ) (tcp : Bool) → Streamer → Outcome Streamer
  init_transport rtp_port rtcp_port tcp s =
      let t = record s {
        rtp_client_port = rtp_port;
        rtcp_client_port = rtcp_port;
        tcp_transport = tcp;
      } in
      if tcp then ok t else search 29282 6970 t

abbrev pub get_rtp_server_port : Streamer → ℕ
get_rtp_server_port s = s.rtp_server_port

abbrev pub get_rtcp_server_port : Streamer → ℕ
get_rtcp_server_port s = s.rtcp_server_port
