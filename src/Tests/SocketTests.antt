-- ===== src/Tests/SocketTests.antt =====
-- Calls that take less than they are given.
use http2rtsp.Prelude.{◌≡◌, false, some, none, true, [], ◌∷◌, inr, refl, arith}
use http2rtsp.Text.{Bytes}
use http2rtsp.Sockets.{
  udp_server_loop, Outcome, accepted, failed, send_all, send_all_loop, sendto_all, exited, wrote,
  interrupted, writestr,
}
use http2rtsp.Sockets.Exits.{sendto_all-send_all}
use http2rtsp.Sockets.Stuck.{udp_server_loop-none}
use http2rtsp.Sockets.Delivery.{Delivered, send_all-Delivered, writestr-Delivered}

abbrev three : Bytes
three = 1 ∷ 2 ∷ 3 ∷ []

send_all-Delivered_example :
    (o : Outcome) × (send_all (accepted 2 ∷ failed ∷ []) false three ≡ some o) × Delivered 3 three o
send_all-Delivered_example =
    send_all-Delivered (accepted 2 ∷ failed ∷ []) three (inr (omega arith, omega arith, tt))

writestr-Delivered_example :
    (o : Outcome) × (writestr (wrote 2 ∷ interrupted ∷ wrote 1 ∷ []) three ≡ some o)
    × Delivered 3 three o
writestr-Delivered_example =
    writestr-Delivered (wrote 2 ∷ interrupted ∷ wrote 1 ∷ []) three
      (inr (omega arith, omega arith, inr (omega arith, omega arith, refl)))

udp_server_loop-none_example :
    udp_server_loop 50 (λ k. none) 0 (record { socket = none; ready = true } ∷ []) ≡ none
udp_server_loop-none_example =
    udp_server_loop-none 50 (λ k. none) 0 (record { socket = none; ready = true }) [] (λ k h. refl)

sendto_all-send_all_example :
    sendto_all (accepted 1 ∷ failed ∷ []) (7 ∷ 8 ∷ 9 ∷ []) ≡ some (exited (7 ∷ []))
unfolding send_all send_all_loop
sendto_all-send_all_example =
    sendto_all-send_all (accepted 1 ∷ failed ∷ []) (7 ∷ 8 ∷ 9 ∷ []) true (omega arith)
