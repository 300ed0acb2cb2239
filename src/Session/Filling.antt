-- ===== src/Session/Filling.antt =====
-- On the read buffer of one object while frames are handled (src/websocket_master/websocket_handler.cpp): bytes
-- that stand behind the frame make no difference.
use mathlib.Core.Option
use mathlib.Core.Path.{fun_ext}
use web_socket_demo.Prelude.{
  ℕ, ◌≡◌, refl, ap, arith, Bool, true, false, List, [], ◌∷◌, ◌++◌, Option, none, some, Bytes, ◌==◌,
  if◌then◌else◌, Option-cases, Bool-cases, inl, inr,
}
use web_socket_demo.Protocol.{fin_msg_end, text_data, pang_pack, need_not_mask}
use web_socket_demo.Request.{Request, reset, get_msg, get_msg_length}
use web_socket_demo.Respond.{pack_data}
use web_socket_demo.Handler.{Handler, nonempty, Env}
use web_socket_demo.Network.{
  Network, put, update_handler_events, queue_close, append_outgoing, broadcast_one, queue_send,
  broadcast_round, broadcast_loop, refresh_all, broadcast_ws_binary,
}
use web_socket_demo.Session.{on_packed, handle_one_frame, reset_request}

abbrev pub read_more : Bytes → Handler → Handler
read_more more h = record h { read_buf = h.read_buf ++ more }

-- The same interface, with more bytes in the read buffer of `fd`.
abbrev pub fill : ℕ → Bytes → Network → Network
fill fd more n = record n {
  handlers = λ i. if i == fd then Option.map (read_more more) (n.handlers i) else n.handlers i;
}

module _ (fd : ℕ) (more : Bytes) where
  pub fill-put :
      (n : Network) (i : ℕ) (h : Handler)
      → put (fill fd more n) i (if i == fd then read_more more h else h) ≡ fill fd more (put n i h)
  fill-put n i h =
      ap (λ (t : ℕ → Option Handler). record n { handlers = t }) (fun_ext (λ j. ground arith))

  pub queue_close-fill :
      (n : Network) (i : ℕ) → queue_close (fill fd more n) i ≡ fill fd more (queue_close n i)
  unfolding queue_close
  queue_close-fill n i = ground arith

  update_handler_events-fill :
      (n : Network) (i : ℕ)
      → update_handler_events (fill fd more n) i ≡ fill fd more (update_handler_events n i)
  unfolding update_handler_events
  update_handler_events-fill n i = ground arith

  pub append_outgoing-fill :
      (n : Network) (i : ℕ) (text : Bytes) (b : Bool)
      → append_outgoing (fill fd more n) i text b ≡ fill fd more (append_outgoing n i text b)
  unfolding append_outgoing
  append_outgoing-fill n i text b = elim (Option-cases (n.handlers i)) [
    | inl e ↦ ground arith
    | inr (h, e) ↦ ground (
      arith,
      fill-put n i (record h { write_buf = h.write_buf ++ text }),
      queue_close-fill n i,
      update_handler_events-fill (put n i (record h { write_buf = h.write_buf ++ text })) i,
    )
  ]

  broadcast_one-fill :
      (text : Bytes) (i : ℕ) (n : Network) (t : List ℕ)
      → broadcast_one text i (fill fd more n) t
        ≡ (fill fd more (broadcast_one text i n t).0, (broadcast_one text i n t).1)
  unfolding broadcast_one
  broadcast_one-fill text i n t = ground (arith, append_outgoing-fill n i text false)

  broadcast_round-fill :
      (except_fd : ℕ) (text : Bytes) (i : ℕ) (n : Network) (t : List ℕ)
      → broadcast_round except_fd text i (fill fd more n) t ≡ (
        fill fd more (broadcast_round except_fd text i n t).0,
        (broadcast_round except_fd text i n t).1,
      )
  unfolding broadcast_round
  broadcast_round-fill except_fd text i n t = ground (arith, broadcast_one-fill text i n t)

  broadcast_loop-fill :
      (except_fd : ℕ) (text : Bytes) (clients : List ℕ) (n : Network) (t : List ℕ)
      → broadcast_loop except_fd text clients (fill fd more n) t ≡ (
        fill fd more (broadcast_loop except_fd text clients n t).0,
        (broadcast_loop except_fd text clients n t).1,
      )
  unfolding broadcast_loop
  broadcast_loop-fill except_fd text [] n t = refl
  broadcast_loop-fill except_fd text (i ∷ rest) n t =
      rw (broadcast_round-fill except_fd text i n t) (
        let r = broadcast_round except_fd text i n t in
        broadcast_loop-fill except_fd text rest r.0 r.1)

  refresh_all-fill :
      (fds : List ℕ) (n : Network)
      → refresh_all fds (fill fd more n) ≡ fill fd more (refresh_all fds n)
  unfolding refresh_all
  refresh_all-fill [] n = refl
  refresh_all-fill (i ∷ rest) n =
      rw (update_handler_events-fill n i) (refresh_all-fill rest (update_handler_events n i))

  broadcast-fill :
      (n : Network) (except_fd : ℕ) (text : Bytes)
      → broadcast_ws_binary (fill fd more n) except_fd text
        ≡ fill fd more (broadcast_ws_binary n except_fd text)
  unfolding broadcast_ws_binary
  broadcast-fill n except_fd text = elim (Bool-cases (nonempty text)) [
    | inl e ↦
        rw (e, broadcast_loop-fill except_fd text n.ws_clients n [])
          (let r = broadcast_loop except_fd text n.ws_clients n [] in refresh_all-fill r.1 r.0)
    | inr e ↦ rw e refl
  ]

  packed-fill :
      (o : Option Bytes) (n : Network) (f : Network → Bytes → Network)
      → ((out : Bytes) → f (fill fd more n) out ≡ fill fd more (f n out))
      → on_packed o (fill fd more n) (f (fill fd more n)) ≡ fill fd more (on_packed o n (f n))
  packed-fill none n f e = refl
  packed-fill (some out) n f e = e out

  -- The answer to a frame does not look at the bytes behind it.
  pub handle_one_frame-fill :
      (env : Env) (n : Network) (i : ℕ) (q : Request)
      → handle_one_frame env (fill fd more n) i q ≡ fill fd more (handle_one_frame env n i q)
  unfolding handle_one_frame
  handle_one_frame-fill env n i q =
      let pack = λ (opcode : ℕ).
        pack_data env.malloc (get_msg q) (get_msg_length q) fin_msg_end opcode need_not_mask in
      ground (
        arith,
        packed-fill (pack text_data) n (λ m out. broadcast_ws_binary (queue_send m i out) i out)
            (λ out.
              rw (append_outgoing-fill n i out true) (broadcast-fill (queue_send n i out) i out)),
        queue_close-fill n i,
        packed-fill (pack pang_pack) n (λ m out. queue_send m i out)
            (λ out. append_outgoing-fill n i out true),
      )

  pub reset_request-fill :
      (n : Network) (i : ℕ) → reset_request (fill fd more n) i ≡ fill fd more (reset_request n i)
  unfolding reset_request
  reset_request-fill n i = elim (Option-cases (n.handlers i)) [
    | inl e ↦ ground arith
    | inr (h, e) ↦ ground (arith, fill-put n i (record h { request = reset h.request }))
  ]
