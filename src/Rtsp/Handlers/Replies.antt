-- ===== src/Rtsp/Handlers/Replies.antt =====
-- The answers as a client receives them: complete, or cut, or not sent at all.
use payloader.Base.{
  ℕ, zero, suc, ◌+◌, ◌-◌, ◌/◌, ◌%◌, ◌^◌, ◌≤◌, ◌≡◌, inl, inr, refl, arith, ap, ◌∙◌, [], ◌∷◌, Bool,
  true, false, some, ltb, le→leb, Bool-cases, length, length-append, take_all, Bytes, ok, fault,
  if◌then◌else◌,
}
use payloader.Streamer.{Streamer, init_transport}
use payloader.Streamer.Ports.{Found, init_transport-Found, init_transport-tcp}
use payloader.Rtsp.{Connection, digits, print_int, snprintf, line}
use payloader.Rtsp.Handlers.{
  option_text, handle_option, pause_text, handle_pause, play_text, handle_play, setup_text,
  setup_answer, transport_text, handle_setup, stream_id, handle_describe,
}

length-digits : (more n : ℕ) → length (digits more n) ≤ more
length-digits zero n = omega arith
length-digits (suc more) n = elim (Bool-cases (ltb n 10)) [
  | inl small ↦ rw (small) (omega arith)
  | inr large ↦
      rw (large, length-append (digits more (n / 10)) ((48 + n % 10) ∷ []))
        (omega (arith, length-digits more (n / 10)))
]

length-print_int : (n : ℕ) → length (print_int n) ≤ 11
length-print_int n = elim (Bool-cases (ltb n (2 ^ 31))) [
  | inl small ↦ rw (small) (omega (arith, length-digits 10 n))
  | inr large ↦ rw (large) (omega (arith, length-digits 10 (2 ^ 32 - n)))
]

-- The buffers of a connection: `char m_CSeq[200]` and `char buf_Date[200]`.
pub record IsConnection (c : Connection) : Type 0 where
  pub c_seq_fits : length c.c_seq ≤ 199
  pub date_fits : length c.date ≤ 199

length-line : (text : Bytes) → length (line text) ≡ length text + 2
length-line text = length-append text (13 ∷ 10 ∷ [])

module _ (c : Connection) (k : IsConnection c) where
  option_text-length : length (option_text c) ≤ 1023
  option_text-length = simp (length-append) (omega (arith, k.c_seq_fits))

  pause_text-length : length (pause_text c) ≤ 1023
  pause_text-length =
      simp (length-append) (omega (arith, k.c_seq_fits, k.date_fits, length-print_int c.session_id))

  play_text-length : length (play_text c) ≤ 1023
  play_text-length =
      simp (length-append) (omega (arith, k.c_seq_fits, k.date_fits, length-print_int c.session_id))

  transport_text-length : (s : Streamer) → length (transport_text c s) ≤ 254
  transport_text-length s = simp (length-append) (
      omega (
        arith,
        length-print_int c.client_rtp_port,
        length-print_int c.client_rtcp_port,
        length-print_int s.rtp_server_port,
        length-print_int s.rtcp_server_port,
      ))

  setup_text-length :
      (transport : Bytes) → length transport ≤ 254 → length (setup_text c transport) ≤ 1023
  setup_text-length transport h =
      simp (length-append) (omega (arith, k.c_seq_fits, k.date_fits, length-print_int c.session_id))

  setup_answer_complete : (s : Streamer) → setup_answer c s ≡ setup_text c (transport_text c s)
  setup_answer_complete s =
      let whole : snprintf 255 (transport_text c s) ≡ transport_text c s =
        take_all 254 (transport_text c s) (transport_text-length s) in
      ap (λ t. snprintf 1024 (setup_text c t)) whole
      ∙ take_all 1023 (setup_text c (transport_text c s))
          (setup_text-length (transport_text c s) (transport_text-length s))

-- With the sequence number and the date within their buffers, no answer to OPTIONS, PAUSE and PLAY
-- is cut by `snprintf`; PLAY also notes that the session is connected.
pub handle_complete :
    (c : Connection)
    → IsConnection c
    → (handle_option c ≡ option_text c ∷ [])
      × (handle_pause c ≡ pause_text c ∷ [])
      × (handle_play c ≡ (record c { connected = true }, play_text c ∷ []))
handle_complete c k = (
  ap (λ t. t ∷ []) (take_all 1023 (option_text c) (option_text-length c k)),
  ap (λ t. t ∷ []) (take_all 1023 (pause_text c) (pause_text-length c k)),
  ap (λ t. (record c { connected = true }, t ∷ []))
      (take_all 1023 (play_text c) (play_text-length c k)),
)

setup_sends :
    (binds : ℕ → Bool) (c : Connection) (s t : Streamer) (tcp : Bool)
    → c.tcp_transport ≡ tcp
    → init_transport binds c.client_rtp_port c.client_rtcp_port tcp s ≡ ok t
    → handle_setup binds c s ≡ ok (t, if tcp then [] else setup_answer c t ∷ [])
unfolding handle_setup
setup_sends binds c s t tcp e returns = rw (e, returns)

-- A SETUP over TCP returns, and sends no answer.
pub handle_setup-tcp :
    (binds : ℕ → Bool) (c : Connection) (s : Streamer)
    → c.tcp_transport ≡ true
    → (t : Streamer) × (handle_setup binds c s ≡ ok (t, [])) × (t.tcp_transport ≡ true)
handle_setup-tcp binds c s tcp =
    let t : Streamer = record s {
      rtp_client_port = c.client_rtp_port;
      rtcp_client_port = c.client_rtcp_port;
      tcp_transport = true;
    } in
    (
      t,
      setup_sends binds c s t true tcp
          (init_transport-tcp binds c.client_rtp_port c.client_rtcp_port s),
      refl,
    )

-- With the sequence number and the date within their buffers, a SETUP over UDP is answered once and
-- completely, with the client's ports and those that the search for a pair leaves.
pub handle_setup-udp :
    (binds : ℕ → Bool) (c : Connection) (s : Streamer)
    → IsConnection c
    → c.tcp_transport ≡ false
    → (t : Streamer) × (handle_setup binds c s ≡ ok (t, setup_text c (transport_text c t) ∷ []))
      × Found binds 6970 s t
handle_setup-udp binds c s k udp =
    let (t, returns, found) = init_transport-Found binds c.client_rtp_port c.client_rtcp_port s in
    let sent = setup_sends binds c s t false udp returns in
    (t, sent ∙ ap (λ a. ok (t, a ∷ [])) (setup_answer_complete c k t), found)

-- A DESCRIBE of a known stream overflows a buffer on the stack if the host and port of the URL have
-- 256 bytes or more.
pub handle_describe-fault :
    (c : Connection) (id : ℕ)
    → stream_id c ≡ some id
    → 256 ≤ length c.url_host_port
    → handle_describe c ≡ fault
unfolding handle_describe
handle_describe-fault c id known long =
    rw (handle_describe, known, le→leb 256 (length c.url_host_port) long)
