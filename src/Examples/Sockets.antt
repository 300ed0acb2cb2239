-- ===== src/Examples/Sockets.antt =====
-- The theorems on the blocking socket at samples.
use web_socket_demo.Prelude.{◌≡◌, refl, true, [], ◌∷◌, some}
use web_socket_demo.TcpSocket.{
  TcpSocket, construct, init, connect, close_socket, took, blocked, send,
}
use web_socket_demo.TcpSocket.Sending.{send-accepted}
use web_socket_demo.TcpSocket.Descriptors.{
  Uses, constructed, inited, connects, closes, IsSound, Uses-IsSound,
}

-- Two bytes go out, and then the kernel has no room: the call returns 0.
send-accepted_example : send (took 2 ∷ blocked ∷ []) (7 ∷ 8 ∷ 9 ∷ []) ≡ (0, 7 ∷ 8 ∷ [])
send-accepted_example = send-accepted (took 2 ∷ blocked ∷ []) (7 ∷ 8 ∷ 9 ∷ [])

abbrev ready : TcpSocket
ready = (connect true true true (init (some 6) true true (construct [] 80)).1).1

ready-Uses : Uses ready
unfolding init
ready-Uses = connects 6 true true true (inited (some 6) true true (constructed [] 80) refl) refl

Uses-IsSound_example : IsSound (close_socket ready)
Uses-IsSound_example = Uses-IsSound (close_socket ready) (closes ready-Uses)
