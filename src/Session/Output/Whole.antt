-- ===== src/Session/Output/Whole.antt =====
-- On `drive_io` (src/websocket_master/websocket_handler.cpp): that only whole frames are written.
use web_socket_demo.Prelude.{ℕ, ◌≡◌, refl, sym, arith, Bool, false, some, Bytes, IsBytes}
use web_socket_demo.Protocol.{Status, handsharked, unconnect}
use web_socket_demo.Request.{
  ParseResult, need_more, ok, error, Request, try_consume_frame, reset, reset,
}
use web_socket_demo.Request.Bounds.{Accounts, try_consume_frame-Accounts}
use web_socket_demo.Request.Octets.{AreOctets, try_consume_frame-AreOctets}
use web_socket_demo.Handler.{Handler, Env}
use web_socket_demo.Network.{Network, put, queue_close}
use web_socket_demo.Network.Broadcast.{queue_close-handlers}
use web_socket_demo.Session.{
  handle_one_frame, reset_request, store, on_parsed, frame_round_in, frame_round, frames, drive_in,
  drive_io,
}
use web_socket_demo.Session.Cases.{at_object}
use web_socket_demo.Session.Rounds.{frames_induction}
use web_socket_demo.Session.Output.{
  Sends, Sends-same, Sends-trans, put-Sends, BytesAt, AddsAt-BytesAt,
}
use web_socket_demo.Session.Output.Answers.{handle_one_frame-Sends}

reset_request-Sends : (n : Network) (fd : ℕ) → Sends n (reset_request n fd)
unfolding reset_request
reset_request-Sends n fd =
    at_object (Sends n) (n.handlers fd) n (λ h. put n fd (record h { request = reset h.request }))
      (Sends-same n n refl)
      (λ h there.
        put-Sends n fd h (record h { request = reset h.request }) there refl refl (λ b. b))

on_parsed-Sends :
    (env : Env) (n : Network) (fd : ℕ) (p buf : Bytes) (q : Request) (k : ParseResult)
    → Accounts 2 14 p k q buf
    → AreOctets k q buf
    → Sends n (on_parsed env n fd q k).0
unfolding on_parsed
on_parsed-Sends env n fd p buf q need_more a o = Sends-same n n refl
on_parsed-Sends env n fd p buf q error a o =
    Sends-same n (queue_close n fd) (sym (queue_close-handlers n fd))
on_parsed-Sends env n fd p buf q ok a o =
    let m : Network = handle_one_frame env n fd q in
    Sends-trans n m (reset_request m fd) (handle_one_frame-Sends env n fd q (a.0, a.1, o.0))
      (reset_request-Sends m fd)

left_over : (k : ParseResult) (q : Request) (buf : Bytes) → AreOctets k q buf → IsBytes buf
left_over need_more q buf o = o
left_over error q buf o = o
left_over ok q buf o = o.1

frame_round_in-Sends :
    (env : Env) (n : Network) (fd : ℕ) (h : Handler) (s : Status)
    → n.handlers fd ≡ some h
    → IsBytes h.read_buf
    → Sends n (frame_round_in env n fd h s).0
unfolding frame_round_in
frame_round_in-Sends env n fd h unconnect there b = Sends-same n n refl
frame_round_in-Sends env n fd h handsharked there b =
    let c = try_consume_frame h.request h.read_buf in
    let octets : AreOctets c.result c.request c.buf =
      try_consume_frame-AreOctets h.request h.read_buf b in
    let m : Network = put n fd (store h c) in
    Sends-trans n m (on_parsed env m fd c.request c.result).0
      (put-Sends n fd h (store h c) there refl refl
        (λ _. left_over c.result c.request c.buf octets))
      (on_parsed-Sends env m fd h.read_buf c.buf c.request c.result
        (try_consume_frame-Accounts h.request h.read_buf) octets)

-- A round on an object whose read buffer holds bytes.
frame_round-Sends :
    (env : Env) (n : Network) (fd : ℕ) → BytesAt (n.handlers fd) → Sends n (frame_round env n fd).0
unfolding frame_round
frame_round-Sends env n fd b =
    at_object (λ (r : Network × Bool). Sends n r.0) (n.handlers fd) (n, false)
      (λ h. frame_round_in env n fd h h.status) (Sends-same n n refl)
      (λ h there. frame_round_in-Sends env n fd h h.status there (rw there at b))

pub frames-Sends :
    (env : Env) (fd : ℕ) (n : Network) → BytesAt (n.handlers fd) → Sends n (frames env n fd)
frames-Sends env fd =
    frames_induction env fd (λ n m. BytesAt (n.handlers fd) → Sends n m)
      (λ n e b. frame_round-Sends env n fd b)
      (λ n m e later b.
        let r : Network = (frame_round env n fd).0 in
        let sends : Sends n r = frame_round-Sends env n fd b in
        Sends-trans n r m sends
          (later (AddsAt-BytesAt (n.handlers fd) (r.handlers fd) (sends fd) b)))

-- Whatever bytes an upgraded connection has sent, also such as are no frames, and whether or not
-- memory is given and the buffers have room: `drive_io` adds to the write buffer of each
-- connection, its own included, nothing but whole frames, and leaves what was there. Each is well-formed, final,
-- unmasked, a text or a pong, in the shortest form, with a payload within the limit. No object
-- comes or goes.
pub drive_io-Sends :
    (env : Env) (n : Network) (fd : ℕ) (h : Handler)
    → n.handlers fd ≡ some h
    → h.status ≡ handsharked
    → IsBytes h.read_buf
    → Sends n (drive_io env n fd)
unfolding drive_io drive_in
drive_io-Sends env n fd h there shaken bytes =
    let driven : drive_io env n fd ≡ frames env n fd = ground arith in
    rw driven (frames-Sends env fd n (rw there bytes))
