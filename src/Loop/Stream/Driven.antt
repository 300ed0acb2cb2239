-- ===== src/Loop/Stream/Driven.antt =====
-- On `drive_io` (src/websocket_master/websocket_handler.cpp) and the reads before it: what becomes of each object.
use web_socket_demo.Prelude.{
  ℕ, ◌+◌, ◌≡◌, refl, sym, ◌∙◌, arith, Bool, true, false, List, [], ◌∷◌, Option, none, some, Bytes,
  IsBytes, IsByte, All-drop, All-append, append-nil, if◌then◌else◌, drop, take, length, ltb,
  if-elim,
}
use web_socket_demo.Protocol.{Status, handsharked, unconnect, ws_max_handshake_bytes}
use web_socket_demo.Text.{codes, find}
use web_socket_demo.Handler.{Handler, Env, nonempty, append_read, fetch_http_info, parse_str}
use web_socket_demo.Network.{Network, put, queue_close, register_ws_client}
use web_socket_demo.Network.Broadcast.{queue_close-handlers, deliver}
use web_socket_demo.Network.Send.{queue_send-handlers}
use web_socket_demo.Session.{frames, upgrade, finish_handshake, seek_headers, drive_in, drive_io}
use web_socket_demo.Session.Cases.{at_object}
use web_socket_demo.Session.Output.{BytesAt}
use web_socket_demo.Session.Output.Whole.{frames-Sends}
use web_socket_demo.Loop.{Read, chunk, eof, again, broken, read_loop, on_readable}
use web_socket_demo.Loop.Edits.{Edit, read_loop-Edit}
use web_socket_demo.Loop.Stream.{
  Goes, AllGo, AllGo-trans, Sends-AllGo, AllGo-same, put-AllGo, GoesAt-BytesAt,
}

-- An object that is not upgraded has no stream of frames yet.
unconnected-Goes :
    (h h' : Handler)
    → h.status ≡ unconnect
    → (IsBytes h.read_buf → IsBytes h'.read_buf)
    → Goes [] h h'
unconnected-Goes h h' u b = record { stays_bytes = b; streams = λ s. cc }

module _ (env : Env) (n : Network) (fd : ℕ) (g h : Handler) (there : n.handlers fd ≡ some g)
    (new : g.status ≡ unconnect) (bytes : IsBytes g.read_buf → IsBytes h.read_buf) where
  put_new : AllGo n (put n fd h)
  put_new = put-AllGo n fd g h there (unconnected-Goes g h new bytes)

  upgrade-AllGo : AllGo n (upgrade env n fd h)
  unfolding upgrade register_ws_client
  upgrade-AllGo i =
      let r = parse_str env h.header_map in
      let k : Handler = record h { status = handsharked; header_map = r.1 } in
      let k' : Handler = if nonempty r.0 then deliver r.0 k else k in
      let at_i : (upgrade env n fd h).handlers i ≡ (put n fd k').handlers i =
        ground (arith, queue_send-handlers (put n fd k) fd r.0 i) in
      let read : k'.read_buf ≡ h.read_buf = ground arith in
      rw at_i (put-AllGo n fd g k' there (unconnected-Goes g k' new (λ b. rw read (bytes b))) i)

  -- The frames behind the request.
  upgraded-AllGo : IsBytes g.read_buf → AllGo n (frames env (upgrade env n fd h) fd)
  upgraded-AllGo b =
      let m : Network = upgrade env n fd h in
      let up : AllGo n m = upgrade-AllGo in
      AllGo-trans n m (frames env m fd) up (
        Sends-AllGo m (frames env m fd) (
          frames-Sends env fd m
            (GoesAt-BytesAt [] (n.handlers fd) (m.handlers fd) (up fd) (rw there b))))

finish_handshake-AllGo :
    (env : Env) (n : Network) (fd : ℕ) (h : Handler) (pos : ℕ)
    → n.handlers fd ≡ some h
    → h.status ≡ unconnect
    → IsBytes h.read_buf
    → AllGo n (finish_handshake env n fd h pos)
unfolding finish_handshake
finish_handshake-AllGo env n fd h pos there new b =
    let r = fetch_http_info h.header_map (take (pos + 4) h.read_buf) in
    let k : Handler = record h { read_buf = drop (pos + 4) h.read_buf; header_map = r.0 } in
    let cut = λ (c : IsBytes h.read_buf). All-drop IsByte (pos + 4) h.read_buf c in
    if-elim (AllGo n) r.1 (λ e. upgraded-AllGo env n fd h k there new cut b)
      (λ e.
        AllGo-trans n (put n fd k) (queue_close (put n fd k) fd)
          (put_new env n fd h k there new cut)
          (AllGo-same (put n fd k) (queue_close (put n fd k) fd)
            (sym (queue_close-handlers (put n fd k) fd))))

drive_in-AllGo :
    (env : Env) (n : Network) (fd : ℕ) (h : Handler) (s : Status)
    → n.handlers fd ≡ some h
    → h.status ≡ s
    → IsBytes h.read_buf
    → AllGo n (drive_in env n fd h s)
unfolding drive_in seek_headers
drive_in-AllGo env n fd h handsharked there e b =
    Sends-AllGo n (frames env n fd) (frames-Sends env fd n (rw there b))
drive_in-AllGo env n fd h unconnect there e b =
    if-elim (AllGo n) (ltb ws_max_handshake_bytes (length h.read_buf))
      (λ _. AllGo-same n (queue_close n fd) (sym (queue_close-handlers n fd)))
      (λ _. at_end (find (codes "\r\n\r\n") h.read_buf))
  where
    at_end : (o : Option ℕ) → AllGo n (seek_headers env n fd h o)
    at_end none = AllGo-same n n refl
    at_end (some pos) = finish_handshake-AllGo env n fd h pos there e b

drive_io-AllGo :
    (env : Env) (n : Network) (fd : ℕ) → BytesAt (n.handlers fd) → AllGo n (drive_io env n fd)
unfolding drive_io
drive_io-AllGo env n fd b =
    at_object (AllGo n) (n.handlers fd) n (λ h. drive_in env n fd h h.status) (AllGo-same n n refl)
      (λ h there. drive_in-AllGo env n fd h h.status there refl (rw there at b))

-- The kernel gives bytes.
abbrev pub ReadBytes : List Read → Type 0
ReadBytes [] = Unit {0}
ReadBytes (chunk bytes ∷ rest) = IsBytes bytes × ReadBytes rest
ReadBytes (eof ∷ rest) = Unit {0}
ReadBytes (again ∷ rest) = Unit {0}
ReadBytes (broken ∷ rest) = Unit {0}

append_read-IsBytes :
    (h : Handler) (bytes : Bytes)
    → IsBytes bytes
    → IsBytes h.read_buf
    → IsBytes (append_read h bytes).1.read_buf
unfolding append_read
append_read-IsBytes h bytes c b = ground (arith, All-append IsByte h.read_buf bytes b c)

read_loop-IsBytes :
    (reads : List Read) (h : Handler)
    → ReadBytes reads
    → IsBytes h.read_buf
    → IsBytes (read_loop reads h).0.read_buf
unfolding read_loop
read_loop-IsBytes [] h r b = b
read_loop-IsBytes (chunk bytes ∷ rest) h r b =
    read_on (append_read h bytes).0 (append_read h bytes).1 (append_read-IsBytes h bytes r.0 b)
      (read_loop-IsBytes rest (append_read h bytes).1 r.1)
  where
    read_on :
        (kept : Bool) (k : Handler)
        → IsBytes k.read_buf
        → (IsBytes k.read_buf → IsBytes (read_loop rest k).0.read_buf)
        → IsBytes
            (elim kept as (λ _. Handler × Bool) [
              | true ↦ read_loop rest k
              | false ↦ (k, true)
            ]).0.read_buf
    read_on true k c more = more c
    read_on false k c more = c
read_loop-IsBytes (eof ∷ rest) h r b = b
read_loop-IsBytes (again ∷ rest) h r b = b
read_loop-IsBytes (broken ∷ rest) h r b = b

read_loop-Goes :
    (reads : List Read) (h : Handler) → ReadBytes reads → Goes [] h (read_loop reads h).0
read_loop-Goes reads h r =
    let e : Edit h (read_loop reads h).0 = read_loop-Edit reads h in
    record {
      stays_bytes = read_loop-IsBytes reads h r;
      streams = λ s. record {
        replies = [];
        are_replies = tt;
        written = e.same_write ∙ sym (append-nil h.write_buf);
        shaken = e.stays_shaken s;
      };
    }

pub on_readable-AllGo :
    (env : Env) (n : Network) (fd : ℕ) (reads : List Read)
    → ReadBytes reads
    → BytesAt (n.handlers fd)
    → AllGo n (on_readable env n fd reads)
unfolding on_readable
on_readable-AllGo env n fd reads r b =
    at_object (AllGo n) (n.handlers fd) n
      (λ h.
        let (k, close_me) = read_loop reads h in
        let m = put n fd k in if close_me then queue_close m fd else drive_io env m fd)
      (AllGo-same n n refl) by_reads
  where
    by_reads :
        (h : Handler)
        → n.handlers fd ≡ some h
        → AllGo n (
            let (k, close_me) = read_loop reads h in
            let m = put n fd k in if close_me then queue_close m fd else drive_io env m fd)
    by_reads h there =
        let k : Handler = (read_loop reads h).0 in
        let m : Network = put n fd k in
        let goes : AllGo n m = put-AllGo n fd h k there (read_loop-Goes reads h r) in
        let here : BytesAt (m.handlers fd) =
          GoesAt-BytesAt [] (n.handlers fd) (m.handlers fd) (goes fd) b in
        if-elim (AllGo n) (read_loop reads h).1
          (λ e.
            AllGo-trans n m (queue_close m fd) goes
              (AllGo-same m (queue_close m fd) (sym (queue_close-handlers m fd))))
          (λ e. AllGo-trans n m (drive_io env m fd) goes (drive_io-AllGo env m fd here))
