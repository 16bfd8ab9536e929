-- ===== src/LoadBalance/Choice.antt =====
-- Which peers legacy/loadbalance/NdgLoadBalanceHandler.hpp chooses for a request.
use ngx_cpp_dev.Base.{
  ℕ, ◌+◌, ◌%◌, ◌<◌, ◌≤◌, ◌≡◌, refl, false, List, [], ◌∷◌, length, ltb, Bool-cases, inl, inr, arith,
  if◌then◌else◌,
}
use ngx_cpp_dev.Base.Int.{ℤ}
use ngx_cpp_dev.Base.Run.{Cmd, ok, ◌>>◌, pure, for_each}
use ngx_cpp_dev.Nginx.{null, ngx_ok}
use ngx_cpp_dev.LoadBalance.{Peer, Peers, PeerData, get_peer}

module _ (get_rr_peer : Cmd PeerData ℤ) where
  -- nginx asks once for each of the numbers that `rand()` returns.
  abbrev pub asks : List ℕ → Peers → Cmd PeerData (Unit {0})
  asks drawn peers = for_each (λ x. get_peer get_rr_peer x peers >> pure tt) drawn

  -- The connection goes to the peer, and is a new one.
  abbrev pub ConnectsTo : Peer → PeerData → Type 0
  ConnectsTo peer d =
      (d.pc.sockaddr ≡ peer.sockaddr)
      × (d.pc.socklen ≡ peer.socklen)
      × (d.pc.name ≡ peer.name)
      × (d.pc.cached ≡ false)
      × (d.pc.connection ≡ null)

  get_peer-ConnectsTo :
      (x : ℕ) (peers : Peers) (d : PeerData)
      → peers.single ≡ false
      → 0 < peers.number
      → d.tries < 6
      → (t : PeerData) × (get_peer get_rr_peer x peers d ≡ ok ngx_ok t)
        × (t.tries ≡ d.tries + 1)
        × (i : ℕ) × (i < peers.number)
        × ConnectsTo (peers.peer i) t
  unfolding get_peer
  get_peer-ConnectsTo x peers d several some_peer early =
      let i = x % peers.number in
      let peer = peers.peer i in
      (
        record {
          tries = d.tries + 1;
          pc = record {
            sockaddr = peer.sockaddr;
            socklen = peer.socklen;
            name = peer.name;
            cached = false;
            connection = null;
          };
        },
        ground arith,
        refl,
        i,
        ground arith,
        (refl, refl, refl, refl, refl),
      )

  get_peer-over :
      (x n : ℕ) (peers : Peers) (d : PeerData)
      → d.tries ≡ 6
      → n ≡ 6
      → get_peer get_rr_peer x peers d ≡ get_rr_peer (record d { tries = n + 1 })
  unfolding get_peer
  get_peer-over x n peers d last six = ground arith

  asks-tries :
      (drawn : List ℕ) (peers : Peers) (d : PeerData)
      → peers.single ≡ false
      → 0 < peers.number
      → d.tries + length drawn ≤ 6
      → (t : PeerData) × (asks drawn peers d ≡ ok tt t) × (t.tries ≡ d.tries + length drawn)
  asks-tries [] peers d several some_peer early = (d, refl, omega arith)
  asks-tries (x ∷ drawn) peers d several some_peer early =
      let (t, run, counted, _, _, _) =
        get_peer-ConnectsTo x peers d several some_peer (omega arith) in
      let (u, run', counted') = asks-tries drawn peers t several some_peer (omega arith) in
      (u, rw run run', omega arith)

  -- Where an upstream has several peers and the request's count starts at 0: each of the first six
  -- times that nginx asks for a peer, the request is connected anew to one of them, whatever `rand()`
  -- returns, and is told so; the seventh time nginx's round robin is asked, with the count at seven.
  pub get_peer-Chosen :
      (drawn : List ℕ) (x : ℕ) (peers : Peers) (d : PeerData)
      → peers.single ≡ false
      → 0 < peers.number
      → d.tries ≡ 0
      → length drawn ≤ 6
      → (t : PeerData) × (t.tries ≡ length drawn + 1)
        × (if ltb (length drawn) 6
            then (((asks drawn peers >> get_peer get_rr_peer x peers) d ≡ ok ngx_ok t)
                × (i : ℕ) × (i < peers.number)
                × ConnectsTo (peers.peer i) t)
            else (asks drawn peers >> get_peer get_rr_peer x peers) d ≡ get_rr_peer t)
  get_peer-Chosen drawn x peers d several some_peer fresh early =
      let (s, asked, counted) = asks-tries drawn peers d several some_peer (omega arith) in
      elim (Bool-cases (ltb (length drawn) 6)) [
        | inl more ↦
            let (t, run, tries, i, inside, connected) =
              get_peer-ConnectsTo x peers s several some_peer (ground arith) in
            (t, omega arith, rw more (rw (asked, run) refl, i, inside, connected))
        | inr over ↦ (
          record s { tries = length drawn + 1 },
          refl,
          rw over (rw asked (get_peer-over x (length drawn) peers s (ground arith) (ground arith))),
        )
      ]
