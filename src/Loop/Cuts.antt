-- ===== src/Loop/Cuts.antt =====
-- On `epoll_loop` (src/websocket_master/network_interface.cpp) and `drive_io`: how the bytes of a connection are
-- cut into reads.
use web_socket_demo.Prelude.{
  ℕ, ◌+◌, ◌≤◌, ◌≡◌, refl, sym, ap, ◌∙◌, arith, true, false, List, [], ◌∷◌, ◌++◌, some, Bytes, ◌==◌,
  length, length-append, append-nil, map, is_negative, All,
}
use web_socket_demo.Protocol.{unconnect, ws_max_read_buffer, ws_max_handshake_bytes}
use web_socket_demo.Handler.{Handler, Env}
use web_socket_demo.Network.{Network, process_close_queue, close_queued}
use web_socket_demo.Session.{drive_io}
use web_socket_demo.Session.Filling.{fill, read_more}
use web_socket_demo.Session.Cuts.{fill-there, fill-fill}
use web_socket_demo.Session.Queued.{queued}
use web_socket_demo.Session.TakenUp.{IsTakenUp, drive_io-IsTakenUp}
use web_socket_demo.Loop.{Read, chunk, Event, handle_event, handle_events, round, epoll_loop}
use web_socket_demo.Loop.Reading.{arrived, hangs_up, on_readable-drive_io}

-- The kernel says that `fd` is readable, and these are the reads.
abbrev pub readable_event : ℕ → List Read → Event
readable_event fd reads = record {
  fd = fd;
  err_or_hup = false;
  readable = true;
  writable = false;
  accepted = [];
  reads = reads;
  sends = [];
}

-- The bytes of several events, in order.
abbrev pub arrived_all : List (List Read) → Bytes
arrived_all [] = []
arrived_all (reads ∷ rest) = arrived reads ++ arrived_all rest

abbrev pub GoOn : List Read → Type 0
GoOn reads = hangs_up reads ≡ false

-- A connection, not the listening socket, whose read buffer has room for so many bytes, as the request has where
-- the handshake is not done; nothing is queued for closing.
pub record IsReady (fd : ℕ) (n : Network) (room : ℕ) : Type 0 where
  pub handler : Handler
  pub there : n.handlers fd ≡ some handler
  pub other : (fd == n.listenfd) ≡ false
  pub fits : length handler.read_buf + room ≤ ws_max_read_buffer
  pub request_fits :
      handler.status ≡ unconnect → length handler.read_buf + room ≤ ws_max_handshake_bytes
  pub quiet : queued n ≡ 0

-- One event in each round.
abbrev pub events : ℕ → List (List Read) → List (List Event)
events fd parts = map (λ reads. readable_event fd reads ∷ []) parts

module _ (env : Env) (fd : ℕ) where
  -- One such event.
  pub handle_event-drive_io :
      (n : Network) (h : Handler) (reads : List Read)
      → n.handlers fd ≡ some h
      → (fd == n.listenfd) ≡ false
      → GoOn reads
      → length h.read_buf + length (arrived reads) ≤ ws_max_read_buffer
      → handle_event env n (readable_event fd reads) ≡ drive_io env (fill fd (arrived reads) n) fd
  unfolding handle_event
  handle_event-drive_io n h reads there other on fits =
      ground (
        arith,
        on_readable-drive_io env n fd h reads there,
        fill-there fd (arrived reads) n h there,
      )

  abbrev handled : Network → List Read → Network
  handled n reads = handle_event env n (readable_event fd reads)

  -- A round in which nothing is queued.
  round_open :
      (n : Network) (reads : List Read)
      → queued (handled n reads) ≡ 0
      → round env n (readable_event fd reads ∷ []) ≡ handled n reads
  unfolding round handle_events process_close_queue close_queued
  round_open n reads e = none_queued (handled n reads).pending_closes e
    where
      none_queued :
          (fds : List ℕ) → length fds ≡ 0 → close_queued (handled n reads) fds ≡ handled n reads
      none_queued [] e = refl
      none_queued (fd ∷ fds) e = absurd (omega arith)

  module _ (n : Network) (a w : List Read) (b : Bytes) (r : IsReady fd n (length (arrived a ++ b)))
      (a_on : GoOn a) (w_on : GoOn w) (all : arrived w ≡ arrived a ++ b)
      (clean : queued (handled n w) ≡ 0) (not_negative : is_negative fd ≡ false) where
    whole_lem : handled n w ≡ drive_io env (fill fd b (fill fd (arrived a) n)) fd
    whole_lem =
        handle_event-drive_io n r.handler w r.there r.other w_on
          (omega (arith, r.fits, ap length all))
        ∙ ap (λ m. drive_io env m fd) (rw (all, fill-fill fd (arrived a) b n) refl)

    part_lem : handled n a ≡ drive_io env (fill fd (arrived a) n) fd
    part_lem =
        handle_event-drive_io n r.handler a r.there r.other a_on
          (omega (arith, r.fits, length-append (arrived a) b))

    part-IsTakenUp :
        IsTakenUp env fd b (fill fd (arrived a) n) (handled n a) (read_more (arrived a) r.handler)
    part-IsTakenUp = rw part_lem (
        drive_io-IsTakenUp env fd b not_negative (fill fd (arrived a) n)
          (read_more (arrived a) r.handler) (ground (arith, r.there))
          (λ new. omega (
            arith,
            r.request_fits new,
            length-append r.handler.read_buf (arrived a),
            length-append (arrived a) b,
          ))
          r.quiet (rw (← whole_lem) clean))

    -- What is left for the other bytes.
    part-IsReady : IsReady fd (handled n a) (length b)
    part-IsReady =
        let s = part-IsTakenUp in
        let lengths : length (r.handler.read_buf ++ arrived a) + length b
            ≡ length r.handler.read_buf + length (arrived a ++ b) =
          omega
            (arith, length-append r.handler.read_buf (arrived a), length-append (arrived a) b) in
        record {
          handler = s.object;
          there = s.there;
          other = rw s.same_listenfd r.other;
          fits = omega (arith, s.shorter, r.fits, lengths);
          request_fits = λ new. omega (arith, s.shorter, r.request_fits (s.still_new new), lengths);
          quiet = s.none_queued;
        }

  -- The other bytes in an event of their own.
  rest_lem :
      (n : Network) (a w v : List Read) (b : Bytes)
      → IsReady fd n (length (arrived a ++ b))
      → GoOn a
      → GoOn w
      → GoOn v
      → arrived w ≡ arrived a ++ b
      → arrived v ≡ b
      → queued (handled n w) ≡ 0
      → is_negative fd ≡ false
      → handled (handled n a) v ≡ handled n w
  rest_lem n a w v b r a_on w_on v_on all rest clean p =
      let ready : IsReady fd (handled n a) (length b) =
        part-IsReady n a w b r a_on w_on all clean p in
      handle_event-drive_io (handled n a) ready.handler v ready.there ready.other v_on
        (rw rest ready.fits)
      ∙ rw rest (part-IsTakenUp n a w b r a_on w_on all clean p).resumed
      ∙ sym (whole_lem n a w b r a_on w_on all clean p)

  -- However the bytes that a connection sends are cut, its request and its frames, into one event
  -- after the other, with a round of the loop for each: the server ends in the same state as when
  -- all of them arrive at once, and has made the same calls to the kernel in the same order. The
  -- descriptor is not negative and not the listening socket, the reads go on, the bytes fit the read
  -- buffer and, where the handshake is not done, the limit on it; and nothing is queued for closing
  -- before, nor where they arrive at once.
  pub epoll_loop-cut :
      (n : Network) (first : List Read) (parts : List (List Read)) (whole : List Read)
      → IsReady fd n (length (arrived_all (first ∷ parts)))
      → All GoOn (first ∷ parts)
      → GoOn whole
      → arrived whole ≡ arrived_all (first ∷ parts)
      → (handle_event env n (readable_event fd whole)).pending_closes ≡ []
      → is_negative fd ≡ false
      → epoll_loop env n (events fd (first ∷ parts)) ≡ epoll_loop env n (events fd (whole ∷ []))
  unfolding epoll_loop
  epoll_loop-cut n first [] whole r on w_on all clean p =
      let q : queued (handled n whole) ≡ 0 = ap length clean in
      let same : handled n first ≡ handled n whole =
        let only : arrived whole ≡ arrived first = all ∙ append-nil (arrived first) in
        let fits : length r.handler.read_buf + length (arrived first) ≤ ws_max_read_buffer =
          omega (arith, r.fits, ap length (append-nil (arrived first))) in
        handle_event-drive_io n r.handler first r.there r.other on.0 fits
        ∙ sym (
            handle_event-drive_io n r.handler whole r.there r.other w_on (rw only fits)
            ∙ rw only refl) in
      rw (round_open n whole q, round_open n first (rw same q)) same
  epoll_loop-cut n first (second ∷ parts) whole r on w_on all clean p =
      let v : List Read = chunk (arrived_all (second ∷ parts)) ∷ [] in
      let b : Bytes = arrived_all (second ∷ parts) in
      let q : queued (handled n whole) ≡ 0 = ap length clean in
      let v_b : arrived v ≡ b = append-nil b in
      let same : handled (handled n first) v ≡ handled n whole =
        rest_lem n first whole v b r on.0 w_on refl all v_b q p in
      let s = part-IsTakenUp n first whole b r on.0 w_on all q p in
      ap (λ m. epoll_loop env m (events fd (second ∷ parts))) (round_open n first s.none_queued)
      ∙ epoll_loop-cut (handled n first) second parts v
          (part-IsReady n first whole b r on.0 w_on all q p) on.1 refl v_b (rw same clean) p
      ∙ round_open (handled n first) v (rw same q)
      ∙ same
      ∙ sym (round_open n whole q)
