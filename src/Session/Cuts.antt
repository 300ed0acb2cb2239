-- ===== src/Session/Cuts.antt =====
-- On the loop over frames in `drive_io` (src/websocket_master/websocket_handler.cpp): bytes that arrive in two
-- parts.
use mathlib.Core.Option
use mathlib.Core.Path.{fun_ext}
use web_socket_demo.Prelude.{
  append_assoc, ℕ, ◌≤◌, ◌<◌, length-append, is_negative, ◌≡◌, refl, ap, ◌∙◌, arith, Bool, true,
  false, [], ◌∷◌, ◌++◌, Option, none, some, Bytes, ◌==◌, if◌then◌else◌,
}
use web_socket_demo.Protocol.{handsharked, unconnect}
use web_socket_demo.Request.{need_more, ok, error, Request, Consumed, try_consume_frame}
use web_socket_demo.Request.Stream.{try_consume_frame-append, with_tail}
use web_socket_demo.Request.Again.{try_consume_frame_again}
use web_socket_demo.Handler.{Handler, Env}
use web_socket_demo.Network.{Network, put, queue_close}
use web_socket_demo.Session.{
  on_object, store, on_parsed, frame_round_in, frame_round, reset_request, handle_one_frame,
}
use web_socket_demo.Session.Seen.{handle_one_frame-seen}
use web_socket_demo.Session.Conversation.{same_buf}
use web_socket_demo.Session.Queued.{queued, handled-queued}
use web_socket_demo.Session.Filling.{
  read_more, fill, fill-put, handle_one_frame-fill, reset_request-fill,
}

pub put_there : (n : Network) (fd : ℕ) (h : Handler) → (put n fd h).handlers fd ≡ some h
put_there n fd h = ground arith

pub put-put : (n : Network) (fd : ℕ) (h k : Handler) → put (put n fd h) fd k ≡ put n fd k
put-put n fd h k =
    ap (λ (t : ℕ → Option Handler). record n { handlers = t }) (fun_ext (λ i. ground arith))

pub fill-there :
    (fd : ℕ) (more : Bytes) (n : Network) (h : Handler)
    → n.handlers fd ≡ some h
    → fill fd more n ≡ put n fd (read_more more h)
fill-there fd more n h there =
    ap (λ (t : ℕ → Option Handler). record n { handlers = t })
      (fun_ext (λ i. ground (arith, there_at i)))
  where
    there_at : (i : ℕ) → (i == fd) ≡ true → n.handlers i ≡ some h
    there_at i e = ground arith

pub fill-fill :
    (fd : ℕ) (more rest : Bytes) (n : Network)
    → fill fd rest (fill fd more n) ≡ fill fd (more ++ rest) n
fill-fill fd more rest n =
    ap (λ (t : ℕ → Option Handler). record n { handlers = t })
      (fun_ext (λ i. at_object i (n.handlers i)))
  where
    at_object :
        (i : ℕ) (o : Option Handler)
        → (if i == fd
            then Option.map (read_more rest) (if i == fd then Option.map (read_more more) o else o)
            else (if i == fd then Option.map (read_more more) o else o))
          ≡ (if i == fd then Option.map (read_more (more ++ rest)) o else o)
    at_object i none = ground arith
    at_object i (some h) = ground (arith, append_assoc h.read_buf more rest)

-- The object is there and its handshake is done.
abbrev pub Upgraded : Network → ℕ → Type 0
Upgraded n fd = (h : Handler) × (n.handlers fd ≡ some h) × (h.status ≡ handsharked)

status_of :
    (o : Option Handler)
    → on_object o unconnect (λ h. h.status) ≡ handsharked
    → (h : Handler) × (o ≡ some h) × (h.status ≡ handsharked)
status_of none e = cc
status_of (some h) e = (h, refl, e)

handled-Upgraded :
    (env : Env) (n : Network) (fd : ℕ) (q : Request)
    → Upgraded n fd
    → Upgraded (reset_request (handle_one_frame env n fd q) fd) fd
unfolding reset_request
handled-Upgraded env n fd q (h, there, shaken) =
    let seen_status : on_object ((handle_one_frame env n fd q).handlers fd) unconnect
          (λ h. h.status)
        ≡ on_object (n.handlers fd) unconnect (λ h. h.status) =
      handle_one_frame-seen unconnect (λ h. h.status) (λ h w. refl) env n fd q fd in
    status_of _ (ground arith)

module _ (env : Env) (fd : ℕ) where
  -- A round on an object that is there and upgraded.
  round_there :
      (n : Network) (h : Handler)
      → n.handlers fd ≡ some h
      → h.status ≡ handsharked
      → frame_round env n fd ≡ (
          let c = try_consume_frame h.request h.read_buf in
          on_parsed env (put n fd (store h c)) fd c.request c.result)
  unfolding frame_round frame_round_in
  round_there n h there shaken = ground arith

  round_put :
      (n : Network) (k : Handler)
      → k.status ≡ handsharked
      → frame_round env (put n fd k) fd ≡ (
          let d = try_consume_frame k.request k.read_buf in
          on_parsed env (put n fd (store k d)) fd d.request d.result)
  round_put n k shaken =
      let d = try_consume_frame k.request k.read_buf in
      round_there (put n fd k) k (put_there n fd k) shaken
      ∙ ap (λ m. on_parsed env m fd d.request d.result) (put-put n fd k (store k d))

  module _ (n : Network) (h : Handler) (more : Bytes) (there : n.handlers fd ≡ some h)
      (shaken : h.status ≡ handsharked) where
    abbrev pub c : Consumed
    c = try_consume_frame h.request h.read_buf

    filled_there : (fill fd more n).handlers fd ≡ some (read_more more h)
    filled_there = ground arith

    -- A round that takes a frame is the same with more bytes behind it.
    pub round_ok :
        c.result ≡ ok
        → (frame_round env n fd).1 ≡ true
          × (frame_round env (fill fd more n) fd ≡ (fill fd more (frame_round env n fd).0, true))
    unfolding on_parsed
    round_ok e =
        let m : Network = put n fd (store h c) in
        let again : frame_round env n fd
            ≡ (reset_request (handle_one_frame env m fd c.request) fd, true) =
          round_there n h there shaken ∙ ground arith in
        let long : try_consume_frame h.request (h.read_buf ++ more) ≡ with_tail more c =
          try_consume_frame-append h.request h.read_buf more (λ s. cc) in
        let n_filled : put (fill fd more n) fd (read_more more (store h c)) ≡ fill fd more m =
          ground (arith, fill-put fd more n fd (store h c)) in
        let last : reset_request (handle_one_frame env (fill fd more m) fd c.request) fd
            ≡ fill fd more (reset_request (handle_one_frame env m fd c.request) fd) =
          rw (handle_one_frame-fill fd more env m fd c.request)
            (reset_request-fill fd more (handle_one_frame env m fd c.request) fd) in
        (
          ap (λ (r : Network × Bool). r.1) again,
          round_there (fill fd more n) (read_more more h) filled_there shaken
              ∙ rw (long, e, n_filled, last, again) refl,
        )

    -- So the state after it is one that a frame has left.
    pub round_kept :
        c.result ≡ ok
        → Upgraded (frame_round env n fd).0 fd × (queued n ≤ queued (frame_round env n fd).0)
    unfolding on_parsed
    round_kept e =
        let m : Network = put n fd (store h c) in
        let again : frame_round env n fd
            ≡ (reset_request (handle_one_frame env m fd c.request) fd, true) =
          round_there n h there shaken ∙ ground arith in
        rw again (
          handled-Upgraded env m fd c.request (store h c, put_there n fd (store h c), shaken),
          handled-queued env m fd c.request,
        )

    -- Where the decoder wants more, the round has no effect on what a later one does.
    pub round_waiting :
        c.result ≡ need_more
        → (frame_round env n fd ≡ (put n fd (store h c), false))
          × (frame_round env (fill fd more (put n fd (store h c))) fd
              ≡ frame_round env (fill fd more n) fd)
    unfolding on_parsed
    round_waiting e =
        let m : Network = put n fd (store h c) in
        let k : Handler = read_more more (store h c) in
        let again : try_consume_frame c.request (c.buf ++ more)
            ≡ try_consume_frame h.request (h.read_buf ++ more) =
          rw (same_buf h.request h.read_buf e)
            (try_consume_frame_again h.request h.read_buf more e) in
        (
          round_there n h there shaken ∙ ground arith,
          rw
              (
                fill-there fd more m (store h c) (put_there n fd (store h c)),
                put-put n fd (store h c) k,
                fill-there fd more n h there,
                round_put n k shaken,
                round_put n (read_more more h) shaken,
                again,
              )
              refl,
        )

    pub round_refused : c.result ≡ error → (frame_round env n fd).1 ≡ false
    unfolding on_parsed
    round_refused e = ap (λ (r : Network × Bool). r.1) (round_there n h there shaken) ∙ ground arith

    -- An error is met again, and queues the object for closing.
    pub round_error :
        c.result ≡ error
        → is_negative fd ≡ false
        → ((frame_round env (fill fd more n) fd).1 ≡ false)
          × (0 < queued (frame_round env (fill fd more n) fd).0)
    unfolding on_parsed queue_close
    round_error e p =
        let again : frame_round env (fill fd more n) fd ≡ (
          queue_close (put (fill fd more n) fd (store (read_more more h) (with_tail more c))) fd,
          false,
        ) =
          round_there (fill fd more n) (read_more more h) filled_there shaken
          ∙ rw (try_consume_frame-append h.request h.read_buf more (λ s. cc), e) refl in
        rw again (refl, ground (arith, length-append n.pending_closes (fd ∷ [])))
