-- ===== src/Streamer/Ports.antt =====
-- The pair of ports that the search finds.
pub mod Clients
use payloader.Base.{
  ℕ, zero, suc, ◌+◌, ◌*◌, ◌≤◌, ◌<◌, ◌≡◌, ◌⊎◌, inl, inr, refl, arith, ap, ◌∙◌, Bool, true, false,
  ◌&&◌, none, some, ltb, u16, ltb→lt, ok, Bool-cases,
}
use payloader.Streamer.{Streamer, try_pair, search, init_transport}

module _ (binds : ℕ → Bool) where
  abbrev pub usable : ℕ → Bool
  usable p = binds p && binds (p + 1)

  -- The first `k` pairs from `p` on are not usable.
  abbrev pub Rejected : ℕ → ℕ → Type 0
  Rejected p zero = Unit
  Rejected p (suc k) = (usable p ≡ false) × Rejected (p + 2) k

  -- The search stops at the first usable pair, or there is none and the ports stay.
  abbrev pub Found : ℕ → Streamer → Streamer → Type 0
  Found p s t =
      ((k : ℕ) × Rejected p k
        × (usable (p + 2 * k) ≡ true)
        × (p + 2 * k < 0xfffe)
        × (t.rtp_server_port ≡ p + 2 * k)
        × (t.rtcp_server_port ≡ p + 2 * k + 1)
        × (t.rtp_socket ≡ some (p + 2 * k))
        × (t.rtcp_socket ≡ some (p + 2 * k + 1)))
      ⊎ ((k : ℕ) × Rejected p k
          × (0xfffe ≤ p + 2 * k)
          × (t.rtp_server_port ≡ s.rtp_server_port)
          × (t.rtcp_server_port ≡ s.rtcp_server_port))

  abbrev taken : ℕ → Streamer → Streamer
  taken p s = record s {
    rtp_socket = some p;
    rtcp_socket = some (p + 1);
    rtp_server_port = p;
    rtcp_server_port = u16 (p + 1);
  }

  -- One round on a pair that is usable, and on one that is not.
  try_pair-usable :
      (p : ℕ) (s : Streamer) → usable p ≡ true → try_pair binds p s ≡ (taken p s, true)
  unfolding try_pair
  try_pair-usable p s u = elim (Bool-cases (binds p)) [
    | inl a ↦ elim (Bool-cases (binds (p + 1))) [
      | inl b ↦ rw (try_pair, a, b)
      | inr b ↦ absurd (clash a b u)
    ]
    | inr a ↦ absurd (clash' (binds (p + 1)) a u)
  ]
    where
      clash : {x y : Bool} → x ≡ true → y ≡ false → (x && y) ≡ true → ⊥
      clash a b u = cc

      clash' : {x : Bool} (y : Bool) → x ≡ false → (x && y) ≡ true → ⊥
      clash' y a u = cc

  try_pair-rejected :
      (p : ℕ) (s : Streamer)
      → usable p ≡ false
      → (t : Streamer) × (try_pair binds p s ≡ (t, false))
        × (t.rtp_server_port ≡ s.rtp_server_port)
        × (t.rtcp_server_port ≡ s.rtcp_server_port)
  unfolding try_pair
  try_pair-rejected p s u = elim (Bool-cases (binds p)) [
    | inl a ↦ elim (Bool-cases (binds (p + 1))) [
      | inl b ↦ absurd (clash a b u)
      | inr b ↦
          let closed : Streamer = record s { rtp_socket = none; rtcp_socket = none } in
          let e : try_pair binds p s ≡ (closed, false) = rw (try_pair, a, b) in
          (closed, e, refl, refl)
    ]
    | inr a ↦
        let closed : Streamer = record s { rtp_socket = none } in
        let e : try_pair binds p s ≡ (closed, false) = rw (try_pair, a) in (closed, e, refl, refl)
  ]
    where
      clash : {x y : Bool} → x ≡ true → y ≡ true → (x && y) ≡ false → ⊥
      clash a b u = cc

  Found-later :
      (p : ℕ) (s t r : Streamer)
      → usable p ≡ false
      → t.rtp_server_port ≡ s.rtp_server_port
      → t.rtcp_server_port ≡ s.rtcp_server_port
      → Found (p + 2) t r
      → Found p s r
  Found-later p s t r bad same_rtp same_rtcp (inl (k, rejected, good, bound, a, b, c, d)) =
      let e : p + 2 + 2 * k ≡ p + 2 * suc k = omega arith in
      inl (
        suc k,
        (bad, rejected),
        (rw e at good),
        (rw e at bound),
        (rw e at a),
        (rw e at b),
        (rw e at c),
        (rw e at d),
      )
  Found-later p s t r bad same_rtp same_rtcp (inr (k, rejected, bound, a, b)) =
      inr (suc k, (bad, rejected), omega arith, a ∙ same_rtp, b ∙ same_rtcp)

  search-rejected :
      (rounds p : ℕ) (s t : Streamer)
      → ltb p 0xfffe ≡ true
      → try_pair binds p s ≡ (t, false)
      → search binds (suc rounds) p s ≡ search binds rounds (p + 2) t
  unfolding search
  search-rejected rounds p s t more returns =
      let next : u16 (p + 2) ≡ p + 2 = omega (arith, ltb→lt p 0xfffe more) in
      let same : search binds rounds (p + 2) (try_pair binds p s).0
          ≡ search binds rounds (p + 2) t =
        ap (λ x. search binds rounds (p + 2) x.0) returns in
      rw (search, more, returns, next) same

  search-Found :
      (rounds p : ℕ) (s : Streamer)
      → p ≤ 0xffff
      → 0xfffe ≤ p + 2 * rounds
      → (t : Streamer) × (search binds rounds p s ≡ ok t) × Found p s t
  unfolding search
  search-Found zero p s low enough = (s, ground arith, inr (0, tt, omega arith, refl, refl))
  search-Found (suc rounds) p s low enough = elim (Bool-cases (ltb p 0xfffe)) [
    | inl more ↦ elim (Bool-cases (usable p)) [
      | inl good ↦
          let e : p ≡ p + 2 * 0 = omega arith in
          let below : p < 0xfffe = ltb→lt p 0xfffe more in
          let tried : try_pair binds p s ≡ (taken p s, true) = try_pair-usable p s good in
          (
            taken p s,
            rw (search, more, try_pair-usable p s good) (ap (λ x. ok x.0) tried),
            inl (
              0,
              tt,
              (rw e at good),
              omega arith,
              e,
              omega arith,
              ap some e,
              ap (λ q. some (q + 1)) e,
            ),
          )
      | inr bad ↦
          let (t, returns, same_rtp, same_rtcp) = try_pair-rejected p s bad in
          let (r, found, later) =
            search-Found rounds (p + 2) t (omega (arith, ltb→lt p 0xfffe more)) (omega arith) in
          (
            r,
            search-rejected rounds p s t more returns ∙ found,
            Found-later p s t r bad same_rtp same_rtcp later,
          )
    ]
    | inr stop ↦ (s, rw (search, stop), inr (0, tt, ground arith, refl, refl))
  ]

  -- Over UDP, `InitTransport` takes the first pair of an even port from 6970 on and the port behind
  -- it at both of which a `bind` succeeds, and both sockets stay open; if there is none below
  -- 0xFFFE, the server's ports stay as they were. It always returns.
  pub init_transport-Found :
      (rtp_port rtcp_port : ℕ) (s : Streamer)
      → (t : Streamer) × (init_transport binds rtp_port rtcp_port false s ≡ ok t) × Found 6970 s t
  unfolding init_transport
  init_transport-Found rtp_port rtcp_port s =
      search-Found 29282 6970
        (record s {
          rtp_client_port = rtp_port;
          rtcp_client_port = rtcp_port;
          tcp_transport = false;
        })
        (omega arith) (omega arith)

  -- Over TCP no port is looked for.
  pub init_transport-tcp :
      (rtp_port rtcp_port : ℕ) (s : Streamer)
      → init_transport binds rtp_port rtcp_port true s
        ≡ ok (record s {
          rtp_client_port = rtp_port;
          rtcp_client_port = rtcp_port;
          tcp_transport = true;
        })
  unfolding init_transport
  init_transport-tcp rtp_port rtcp_port s = refl
