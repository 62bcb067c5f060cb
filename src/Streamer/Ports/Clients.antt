-- ===== src/Streamer/Ports/Clients.antt =====
-- The search for the server's ports leaves the client's ports alone.
use payloader.Base.{
  ℕ, zero, suc, ◌+◌, ◌≡◌, refl, sym, ◌∙◌, Bool, false, ltb, u16, ok, timeout, Bool-cases, inl, inr,
}
use payloader.Streamer.{Streamer, try_pair, search, init_transport}

-- What a search leaves of a streamer.
abbrev pub SameClient : Streamer → Streamer → Type 0
SameClient s t =
    (t.rtp_client_port ≡ s.rtp_client_port)
    × (t.rtcp_client_port ≡ s.rtcp_client_port)
    × (t.tcp_transport ≡ s.tcp_transport)

module _ (binds : ℕ → Bool) where
  try_pair-SameClient : (p : ℕ) (s : Streamer) → SameClient s (try_pair binds p s).0
  unfolding try_pair
  try_pair-SameClient p s = elim (Bool-cases (binds p)) [
    | inr a ↦ rw (try_pair, a) (refl, refl, refl)
    | inl a ↦ elim (Bool-cases (binds (p + 1))) [
      | inl b ↦ rw (try_pair, a, b) (refl, refl, refl)
      | inr b ↦ rw (try_pair, a, b) (refl, refl, refl)
    ]
  ]

  search-SameClient :
      (rounds p : ℕ) (s t : Streamer) → search binds rounds p s ≡ ok t → SameClient s t
  unfolding search
  search-SameClient zero p s t e = elim (Bool-cases (ltb p 0xfffe)) [
    | inl more ↦ let runs : search binds zero p s ≡ timeout = rw (search, more) in cc
    | inr over ↦
        let stops : search binds zero p s ≡ ok s = rw (search, over) in
        let same : s ≡ t = cc in rw (← same) (refl, refl, refl)
  ]
  search-SameClient (suc rounds) p s t e = elim (Bool-cases (ltb p 0xfffe)) [
    | inr over ↦
        let stops : search binds (suc rounds) p s ≡ ok s = rw (search, over) in
        let same : s ≡ t = cc in rw (← same) (refl, refl, refl)
    | inl more ↦
        let tried = (try_pair binds p s).0 in
        let (rtp, rtcp, tcp) = try_pair-SameClient p s in
        elim (Bool-cases ((try_pair binds p s).1)) [
          | inl found ↦
              let stops : search binds (suc rounds) p s ≡ ok tried =
                rw (search, more) (rw (found)) in
              let same : tried ≡ t = cc in rw (← same) (rtp, rtcp, tcp)
          | inr next ↦
              let goes : search binds (suc rounds) p s ≡ search binds rounds (u16 (p + 2)) tried =
                rw (search, more) (rw (next)) in
              let (a, b, c) = search-SameClient rounds (u16 (p + 2)) tried t (sym goes ∙ e) in
              (a ∙ rtp, b ∙ rtcp, c ∙ tcp)
        ]
  ]

  -- The ports of the client are the ones that are given, whatever the search finds.
  pub init_transport-client :
      (rtp_port rtcp_port : ℕ) (s t : Streamer)
      → init_transport binds rtp_port rtcp_port false s ≡ ok t
      → (t.rtp_client_port ≡ rtp_port) × (t.rtcp_client_port ≡ rtcp_port)
  unfolding init_transport
  init_transport-client rtp_port rtcp_port s t e =
      let (a, b, c) = search-SameClient 29282 6970 _ t e in (a, b)
