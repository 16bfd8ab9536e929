-- ===== src/LoadBalance.antt =====
-- ngxpp/NgxLoadBalance.hpp and legacy/loadbalance/NdgLoadBalanceHandler.hpp: the choice of a peer for a
-- request that goes to an upstream. nginx's round robin is an argument, as is the random number.
pub mod Choice
use ngx_cpp_dev.Base.{ℕ, ◌+◌, ◌%◌, ◌^◌, ◌==◌, Bool, true, false, ◌||◌, ltb, if◌then◌else◌}
use ngx_cpp_dev.Base.Int.{ℤ}
use ngx_cpp_dev.Base.Run.{NgxException, Cmd, ok, fault, ◌>>=◌, ◌>>◌, catch, pure, modify, get}
use ngx_cpp_dev.Nginx.{Ptr, null, is_null, ngx_ok, ngx_error}
use ngx_cpp_dev.Exception.{require_rc, require_ptr}

-- A peer, and the connection to the peer that was chosen.
pub record Peer : Type 0 where
  pub sockaddr : Ptr
  pub socklen : ℕ
  pub name : Ptr

pub record Connection : Type 0 where
  pub sockaddr : Ptr
  pub socklen : ℕ
  pub name : Ptr
  pub cached : Bool
  pub connection : Ptr

-- The peers of an upstream: `single` is set where there is one.
pub record Peers : Type 0 where
  pub single : Bool
  pub number : ℕ
  pub peer : ℕ → Peer

-- `NdgLoadBalanceCallback` and the connection; `tries` is a `u_char`.
pub record PeerData : Type 0 where
  pub tries : ℕ
  pub pc : Connection

abbrev pub connect : Peer → PeerData → PeerData
connect peer d = record d {
  pc = record {
    sockaddr = peer.sockaddr;
    socklen = peer.socklen;
    name = peer.name;
    cached = false;
    connection = null;
  };
}

module _ (get_rr_peer : Cmd PeerData ℤ) where
  -- `round_robin(pc, data)`
  unfoldable pub round_robin : Cmd PeerData ℤ
  round_robin = get_rr_peer

  -- `get(pc, data)`; `drawn` is what `rand()` returns. The source divides by the number of peers.
  unfoldable pub get_peer : (drawn : ℕ) → Peers → Cmd PeerData ℤ
  get_peer drawn peers = do
    d ← get
    modify (λ d. record d { tries = (d.tries + 1) % 2 ^ 8 })
    if ltb 5 d.tries || peers.single
        then get_rr_peer
        else if peers.number == 0
        then (λ _. fault)
        else do modify (connect (peers.peer (drawn % peers.number))); pure ngx_ok

-- The functions that a configured upstream and a request's upstream hold: nginx's, or the module's.
pub record Upstream : Type 0 where
  pub init_peer : Ptr
  pub data_ptr : Ptr
  pub get_ptr : Ptr
  pub free_ptr : Ptr

-- `NgxLoadBalance::init(cf, us, init_peer)`
unfoldable pub init :
    (ngx_init_round_robin : Cmd Upstream ℤ) → (init_peer : Ptr) → Cmd Upstream (Unit {0})
unfolding require_rc
init ngx_init_round_robin init_peer = do
  rc ← ngx_init_round_robin
  require_rc rc ngx_ok
  modify (λ u. record u { init_peer = init_peer })

-- `NgxLoadBalance::init(r, us)`: `p` is what the pool gives for the peer data, whose round robin data
-- stands at `p + offset`. It returns `p`.
unfoldable pub init_data :
    (ngx_init_round_robin_peer : Cmd Upstream ℤ)
    → (get_peer free_peer : Ptr) → (p offset : Ptr) → Cmd Upstream Ptr
unfolding require_rc require_ptr
init_data ngx_init_round_robin_peer get_peer free_peer p offset = do
  require_ptr p ngx_error
  modify (λ u. record u { data_ptr = p + offset })
  rc ← ngx_init_round_robin_peer
  require_rc rc ngx_ok
  modify (λ u. record u {
    get_ptr = get_peer;
    free_ptr = if is_null free_peer then u.free_ptr else free_peer;
  })
  pure p

-- `NdgLoadBalanceHandler::init` and `init_peer`; the round robin data stands first, and the module
-- has no `free_peer`.
unfoldable pub handler_init :
    (ngx_init_round_robin : Cmd Upstream ℤ) → (init_peer : Ptr) → Cmd Upstream ℤ
unfolding init
handler_init ngx_init_round_robin init_peer =
    catch (do init ngx_init_round_robin init_peer; pure ngx_ok) (λ (e : NgxException). pure e.code)

unfoldable pub handler_init_peer :
    (ngx_init_round_robin_peer : Cmd Upstream ℤ) → (get_peer p : Ptr) → Cmd Upstream ℤ
unfolding init_data
handler_init_peer ngx_init_round_robin_peer get_peer p = do
  init_data ngx_init_round_robin_peer get_peer null p 0
  pure ngx_ok
