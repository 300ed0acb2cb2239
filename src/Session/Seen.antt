-- ===== src/Session/Seen.antt =====
-- On `handle_one_frame` (src/websocket_master/websocket_handler.cpp): of an object it changes the write buffer
-- only, so whatever else is looked at stays.
use web_socket_demo.Prelude.{
  ℕ, ◌≡◌, refl, ap, ◌∙◌, arith, true, List, [], ◌∷◌, ◌++◌, Bytes, Bool-cases, Option-cases, inl,
  inr,
}
use web_socket_demo.Request.{Request}
use web_socket_demo.Handler.{Handler, Env, nonempty}
use web_socket_demo.Network.{
  Network, update_handler_events, queue_close, append_outgoing, queue_send, broadcast_round,
  broadcast_loop, broadcast_ws_binary,
}
use web_socket_demo.Network.Broadcast.{broadcast_round-handlers, refresh_all-handlers}
use web_socket_demo.Session.Cases.{handle_one_frame_cases}
use web_socket_demo.Session.{on_object, handle_one_frame}

-- `look` does not read the write buffer; `a` is seen where there is no object.
module _ {A : Type 0} (a : A) (look : Handler → A)
    (blind : (h : Handler) (w : Bytes) → look (record h { write_buf = w }) ≡ look h) where
  abbrev pub seen : Network → ℕ → A
  seen n i = on_object (n.handlers i) a look

  queue_send-seen :
      (n : Network) (fd : ℕ) (text : Bytes) (i : ℕ) → seen (queue_send n fd text) i ≡ seen n i
  unfolding append_outgoing update_handler_events queue_close
  queue_send-seen n fd text i = elim (Option-cases (n.handlers fd)) [
    | inl e ↦ ground arith
    | inr (h, e) ↦ ground (arith, blind h (h.write_buf ++ text))
  ]

  queue_close-seen : (n : Network) (fd i : ℕ) → seen (queue_close n fd) i ≡ seen n i
  unfolding queue_close
  queue_close-seen n fd i = ground arith

  broadcast_round-seen :
      (except_fd : ℕ) (text : Bytes) (cfd : ℕ) (n : Network) (t : List ℕ) (i : ℕ)
      → nonempty text ≡ true
      → seen (broadcast_round except_fd text cfd n t).0 i ≡ seen n i
  broadcast_round-seen except_fd text cfd n t i e = elim (Option-cases (n.handlers i)) [
    | inl none_there ↦ ground (arith, broadcast_round-handlers except_fd text cfd n t i e)
    | inr (h, there) ↦
        ground (
          arith,
          broadcast_round-handlers except_fd text cfd n t i e,
          blind h (h.write_buf ++ text),
        )
  ]

  broadcast_loop-seen :
      (except_fd : ℕ) (text : Bytes) (clients : List ℕ) (n : Network) (t : List ℕ) (i : ℕ)
      → nonempty text ≡ true
      → seen (broadcast_loop except_fd text clients n t).0 i ≡ seen n i
  unfolding broadcast_loop
  broadcast_loop-seen except_fd text [] n t i e = refl
  broadcast_loop-seen except_fd text (cfd ∷ rest) n t i e =
      let r = broadcast_round except_fd text cfd n t in
      broadcast_loop-seen except_fd text rest r.0 r.1 i e
      ∙ broadcast_round-seen except_fd text cfd n t i e

  broadcast-seen :
      (n : Network) (fd : ℕ) (text : Bytes) (i : ℕ)
      → seen (broadcast_ws_binary n fd text) i ≡ seen n i
  unfolding broadcast_ws_binary
  broadcast-seen n fd text i = elim (Bool-cases (nonempty text)) [
    | inl e ↦ rw e (
        let r = broadcast_loop fd text n.ws_clients n [] in
        ap (λ f. on_object (f i) a look) (refresh_all-handlers r.1 r.0)
        ∙ broadcast_loop-seen fd text n.ws_clients n [] i e)
    | inr e ↦ rw e
  ]

  pub handle_one_frame-seen :
      (env : Env) (n : Network) (fd : ℕ) (q : Request) (i : ℕ)
      → seen (handle_one_frame env n fd q) i ≡ seen n i
  handle_one_frame-seen env n fd q i =
      handle_one_frame_cases (λ m. seen m i ≡ seen n i) env n fd q refl (queue_close-seen n fd i)
        (λ pong. queue_send-seen n fd pong i)
        (λ out. broadcast-seen (queue_send n fd out) fd out i ∙ queue_send-seen n fd out i)
