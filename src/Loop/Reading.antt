-- ===== src/Loop/Reading.antt =====
-- On the reads of `epoll_loop` (src/websocket_master/network_interface.cpp).
use web_socket_demo.Prelude.{
  ℕ, ◌+◌, ◌≤◌, ◌≡◌, refl, ap, ◌∙◌, arith, Bool, true, false, ◌||◌, List, [], ◌∷◌, ◌++◌, some, Bytes,
  if◌then◌else◌, ltb, length, length-append, append_assoc, append-nil, Bool-cases, inl, inr,
}
use web_socket_demo.Protocol.{ws_max_read_buffer}
use web_socket_demo.Handler.{Handler, Env, append_read}
use web_socket_demo.Network.{Network, put, queue_close}
use web_socket_demo.Session.{drive_io}
use web_socket_demo.Loop.{Read, chunk, eof, again, broken, read_loop, on_readable}

-- The bytes that the calls of `read` give.
abbrev pub arrived : List Read → Bytes
arrived [] = []
arrived (chunk bytes ∷ rest) = bytes ++ arrived rest
arrived (eof ∷ rest) = []
arrived (again ∷ rest) = []
arrived (broken ∷ rest) = []

-- Whether they end with the end of the stream or an error.
abbrev pub hangs_up : List Read → Bool
hangs_up [] = false
hangs_up (chunk bytes ∷ rest) = hangs_up rest
hangs_up (eof ∷ rest) = true
hangs_up (again ∷ rest) = false
hangs_up (broken ∷ rest) = true

abbrev pub too_much : Handler → List Read → Bool
too_much h reads = ltb ws_max_read_buffer (length h.read_buf + length (arrived reads))

abbrev pub filled : Handler → List Read → Handler
filled h reads = record h { read_buf = h.read_buf ++ arrived reads }

record IsReading (h : Handler) (reads : List Read) (r : Handler × Bool) : Type 0 where
  flag : r.1 ≡ (hangs_up reads || too_much h reads)
  object : r.1 ≡ false → r.0 ≡ filled h reads

append_read-fits :
    (h : Handler) (bytes : Bytes)
    → length h.read_buf + length bytes ≤ ws_max_read_buffer
    → append_read h bytes ≡ (true, record h { read_buf = h.read_buf ++ bytes })
unfolding append_read
append_read-fits h [] fits = ground (arith, append-nil h.read_buf)
append_read-fits h (b ∷ bs) fits = ground arith

append_read_large :
    (h : Handler) (bytes : Bytes)
    → length h.read_buf ≤ ws_max_read_buffer
    → ltb ws_max_read_buffer (length h.read_buf + length bytes) ≡ true
    → append_read h bytes ≡ (false, h)
unfolding append_read
append_read_large h [] fits over = ground (arith, over)
append_read_large h (b ∷ bs) fits over = ground (arith, over)

-- One round of the loop.
abbrev read_on : List Read → Bool × Handler → Handler × Bool
read_on rest r = elim r.0 [ true ↦ read_loop rest r.1 | false ↦ (r.1, true) ]

read_loop-fits :
    (h : Handler) (bytes : Bytes) (rest : List Read)
    → length h.read_buf + length bytes ≤ ws_max_read_buffer
    → read_loop (chunk bytes ∷ rest) h
      ≡ read_loop rest (record h { read_buf = h.read_buf ++ bytes })
unfolding read_loop
read_loop-fits h bytes rest fits = ap (read_on rest) (append_read-fits h bytes fits)

read_loop_large :
    (h : Handler) (bytes : Bytes) (rest : List Read)
    → length h.read_buf ≤ ws_max_read_buffer
    → ltb ws_max_read_buffer (length h.read_buf + length bytes) ≡ true
    → read_loop (chunk bytes ∷ rest) h ≡ (h, true)
unfolding read_loop
read_loop_large h bytes rest fits over = ap (read_on rest) (append_read_large h bytes fits over)

read_loop-IsReading :
    (reads : List Read) (h : Handler)
    → length h.read_buf ≤ ws_max_read_buffer
    → IsReading h reads (read_loop reads h)
read_loop-IsReading [] h fits =
    unfold read_loop in
    record { flag = ground arith; object = λ e. ground (arith, append-nil h.read_buf) }
read_loop-IsReading (eof ∷ rest) h fits =
    unfold read_loop in record { flag = refl; object = λ e. cc }
read_loop-IsReading (again ∷ rest) h fits =
    unfold read_loop in
    record { flag = ground arith; object = λ e. ground (arith, append-nil h.read_buf) }
read_loop-IsReading (broken ∷ rest) h fits =
    unfold read_loop in record { flag = refl; object = λ e. cc }
read_loop-IsReading (chunk bytes ∷ rest) h fits =
    elim (Bool-cases (ltb ws_max_read_buffer (length h.read_buf + length bytes))) [
      | inl over ↦ rw (read_loop_large h bytes rest fits over) (record {
        flag = ground (arith, over, length-append bytes (arrived rest));
        object = λ e. cc;
      })
      | inr small ↦
          let k : Handler = record h { read_buf = h.read_buf ++ bytes } in
          let fits' : length k.read_buf ≤ ws_max_read_buffer =
            ground (arith, small, length-append h.read_buf bytes) in
          let more : IsReading k rest (read_loop rest k) = read_loop-IsReading rest k fits' in
          rw (read_loop-fits h bytes rest (ground (arith, small))) (record {
            flag =
                more.flag
                ∙ ap (λ t. hangs_up rest || ltb ws_max_read_buffer t)
                    (ground
                      (arith, length-append h.read_buf bytes, length-append bytes (arrived rest)));
            object = λ e.
                more.object e
                ∙ ap (λ t. record h { read_buf = t })
                    (append_assoc h.read_buf bytes (arrived rest));
          })
    ]

-- Where the connection's read buffer is within its limit before: if all that arrived fits too, and the
-- stream goes on, then all of it is put in the buffer and `drive_io` is called once. If the stream has
-- ended or failed, or the bytes would not fit, the connection is queued for closing and none
-- of the bytes are parsed, even if they hold whole frames.
pub on_readable-drive_io :
    (env : Env) (n : Network) (fd : ℕ) (h : Handler) (reads : List Read)
    → n.handlers fd ≡ some h
    → length h.read_buf ≤ ws_max_read_buffer
    → on_readable env n fd reads ≡ (
        if hangs_up reads || too_much h reads
        then queue_close (put n fd (read_loop reads h).0) fd
        else drive_io env (put n fd (filled h reads)) fd)
unfolding on_readable
on_readable-drive_io env n fd h reads there fits =
    let r : IsReading h reads (read_loop reads h) = read_loop-IsReading reads h fits in
    elim (Bool-cases (read_loop reads h).1) [
      | inl e ↦ ground (arith, there, e, r.flag)
      | inr e ↦ ground (arith, there, e, r.flag, r.object e)
    ]
