-- ===== src/Sockets/Stuck.antt =====
-- `udp_server` of socketfunc.c on a system that gives it no socket.
use http2rtsp.Prelude.{ℕ, zero, suc, ◌≡◌, ◌≤◌, refl, Option, none, List, ◌∷◌, arith}
use http2rtsp.Sockets.{Address, udp_server_loop}

-- If there is an address and no call of `socket` from this one on works, the loop of `udp_server` does
-- not end, however long it runs, also if other addresses are left.
pub udp_server_loop-none :
    (fuel : ℕ) (sockets : ℕ → Option ℕ) (call : ℕ) (a : Address) (addresses : List Address)
    → ((k : ℕ) → call ≤ k → sockets k ≡ none)
    → udp_server_loop fuel sockets call (a ∷ addresses) ≡ none
unfolding udp_server_loop
udp_server_loop-none zero sockets call a addresses fails = refl
udp_server_loop-none (suc fuel) sockets call a addresses fails =
    rw (udp_server_loop, fails call (omega arith))
      (udp_server_loop-none fuel sockets (suc call) a addresses (λ k h. fails k (omega arith)))
