-- ===== src/Loop/Edits.antt =====
-- The changes of an object in the event loop (src/websocket_master/network_interface.cpp) that leave its
-- outgoing bytes alone, and what an invariant is asked to keep.
use web_socket_demo.Prelude.{
  ℕ, ◌≤◌, ◌≡◌, refl, ◌∙◌, arith, Bool, true, false, List, [], ◌∷◌, none, some, Bytes, if◌then◌else◌,
  length, drop, length-append, length-drop,
}
use web_socket_demo.Protocol.{handsharked, ws_max_read_buffer}
use web_socket_demo.Request.Bounds.{AccountsFor, try_consume_frame-Accounts}
use web_socket_demo.Request.{Consumed, try_consume_frame}
use web_socket_demo.Text.{HeaderMap}
use web_socket_demo.Handler.{Handler, nonempty, append_read}
use web_socket_demo.Network.Broadcast.{deliver}
use web_socket_demo.Network.{
  Network, put, update_handler_events, register_ws_client, queue_close, append_outgoing, queue_send,
  broadcast_ws_binary, ctl_event,
}
use web_socket_demo.Session.{Send, store}
use web_socket_demo.Loop.{
  Read, chunk, eof, again, broken, tune_client_socket, read_loop, on_writable,
}

-- A change of an object that leaves its outgoing bytes alone: the read buffer stays within its limit,
-- and a handshake is never undone.
pub record Edit (h h' : Handler) : Type 0 where
  pub same_write : h'.write_buf ≡ h.write_buf
  pub read_fits : length h.read_buf ≤ ws_max_read_buffer → length h'.read_buf ≤ ws_max_read_buffer
  pub stays_shaken : h.status ≡ handsharked → h'.status ≡ handsharked

pub record Closed (P : Network → Type 0) : Type 0 where
  pub on_queue_close : (n : Network) (fd : ℕ) → P n → P (queue_close n fd)
  pub on_edit :
      (n : Network) (fd : ℕ) (h h' : Handler)
      → n.handlers fd ≡ some h
      → Edit h h'
      → P n
      → P (put n fd h')
  pub on_send :
      (n : Network) (fd : ℕ) (text : Bytes) (h : Handler)
      → n.handlers fd ≡ some h
      → h.status ≡ handsharked
      → P n
      → P (queue_send n fd text)
  pub on_broadcast : (n : Network) (fd : ℕ) (text : Bytes) → P n → P (broadcast_ws_binary n fd text)
  pub on_register :
      (n : Network) (fd : ℕ) (h : Handler)
      → n.handlers fd ≡ some h
      → h.status ≡ handsharked
      → P n
      → P (register_ws_client n fd)
  pub on_flush : (n : Network) (fd : ℕ) (sends : List Send) → P n → P (on_writable n fd sends)
  pub on_add :
      (n : Network) (fd : ℕ)
      → n.handlers fd ≡ none
      → P n
      → P (ctl_event (tune_client_socket n fd) fd true)
  pub on_del : (n : Network) (fd : ℕ) → P n → P (ctl_event n fd false)
  pub on_clear : (n : Network) → P n → P (record n { pending_closes = [] })

pub queue_send-status :
    (n : Network) (fd : ℕ) (h : Handler) (text : Bytes)
    → n.handlers fd ≡ some h
    → (h' : Handler) × ((queue_send n fd text).handlers fd ≡ some h') × (h'.status ≡ h.status)
unfolding append_outgoing update_handler_events queue_close
queue_send-status n fd h text e =
    (if nonempty text then deliver text h else h, ground arith, ground arith)

pub put_self : (n : Network) (fd : ℕ) (h : Handler) → (put n fd h).handlers fd ≡ some h
put_self n fd h = ground arith

append_read-Edit : (h : Handler) (bytes : Bytes) → Edit h (append_read h bytes).1
unfolding append_read
append_read-Edit h bytes = ground (arith, length-append h.read_buf bytes)

Edit-trans : (a b c : Handler) → Edit a b → Edit b c → Edit a c
Edit-trans a b c p q = record {
  same_write = q.same_write ∙ p.same_write;
  read_fits = λ h. q.read_fits (p.read_fits h);
  stays_shaken = λ h. q.stays_shaken (p.stays_shaken h);
}

pub read_loop-Edit : (reads : List Read) (h : Handler) → Edit h (read_loop reads h).0
unfolding read_loop
read_loop-Edit [] h = ground arith
read_loop-Edit (chunk bytes ∷ rest) h =
    read_more (append_read h bytes).0 (append_read h bytes).1 (append_read-Edit h bytes)
      (read_loop-Edit rest (append_read h bytes).1)
  where
    read_more :
        (kept : Bool) (h' : Handler)
        → Edit h h'
        → Edit h' (read_loop rest h').0
        → Edit h
            (elim kept as (λ _. Handler × Bool) [ true ↦ read_loop rest h' | false ↦ (h', true) ]).0
    read_more true h' e more = Edit-trans h h' _ e more
    read_more false h' e more = e
read_loop-Edit (eof ∷ rest) h = ground arith
read_loop-Edit (again ∷ rest) h = ground arith
read_loop-Edit (broken ∷ rest) h = ground arith

-- The object after a parse: its buffer is no longer than it was.
pub store-Edit : (h : Handler) → Edit h (store h (try_consume_frame h.request h.read_buf))
store-Edit h = record {
  same_write = refl;
  read_fits =
      shorter (try_consume_frame h.request h.read_buf)
        (try_consume_frame-Accounts h.request h.read_buf);
  stays_shaken = λ b. b;
}
  where
    shorter :
        (t : Consumed)
        → AccountsFor 2 14 h.read_buf t
        → length h.read_buf ≤ ws_max_read_buffer
        → length t.buf ≤ ws_max_read_buffer
    shorter t a b = ground arith

pub cut-Edit :
    (h : Handler) (k : ℕ) {m : HeaderMap}
    → Edit h (record h { read_buf = drop k h.read_buf; header_map = m })
cut-Edit h k = record {
  same_write = refl;
  read_fits = λ b. omega (arith, length-drop k h.read_buf);
  stays_shaken = λ b. b;
}
