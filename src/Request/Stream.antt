-- ===== src/Request/Stream.antt =====
-- On `try_consume_frame` (src/websocket_master/websocket_request.cpp): a buffer that grows.
use web_socket_demo.Prelude.{
  ℕ, zero, suc, ◌+◌, ◌≤◌, ◌≡◌, ◌≢◌, refl, [], ◌∷◌, ◌++◌, arith, Bytes, length, drop, length-append,
  get_or-append, take-append, drop-append, length-drop,
}
use web_socket_demo.Request.{
  need_more, Request, no_key, Consumed, at, ext_loop, LengthField, short, refused, field,
  read_length, take_payload, take_key, after_length, first_bytes, try_consume_frame,
}

abbrev pub with_tail : Bytes → Consumed → Consumed
with_tail more c = record c { buf = c.buf ++ more }

-- The loop reads below index `i + left + 2`.
ext_loop-append :
    (left i e : ℕ) (p more : Bytes)
    → 2 + i + left ≤ length p
    → ext_loop left i e (p ++ more) ≡ ext_loop left i e p
unfolding ext_loop
ext_loop-append zero i e p more h = refl
ext_loop-append (suc left) i e p more h =
    rw (get_or-append p more (2 + i) 0 (omega arith))
      (ext_loop-append left (i + 1) _ p more (omega arith))

pub read_length-append :
    (p more : Bytes)
    → 2 ≤ length p
    → read_length p ≢ short
    → read_length (p ++ more) ≡ read_length p
unfolding read_length
read_length-append p more h e = ground (
  arith,
  length-append p more,
  get_or-append p more 1 0,
  get_or-append p more 2 0,
  get_or-append p more 3 0,
  ext_loop-append 8 0 0 p more,
)

take_payload-append :
    (r : Request) (p more : Bytes) (n header_len : ℕ)
    → (take_payload r p n header_len).result ≢ need_more
    → take_payload r (p ++ more) n header_len ≡ with_tail more (take_payload r p n header_len)
unfolding take_payload
take_payload-append r p more n header_len e = ground (
  arith,
  length-append p more,
  drop-append header_len p more,
  take-append n (drop header_len p) more,
  length-drop header_len p,
  drop-append (header_len + n) p more,
)

take_key-append :
    (r : Request) (p more : Bytes) (n header_len : ℕ)
    → (take_key r p n header_len).result ≢ need_more
    → take_key r (p ++ more) n header_len ≡ with_tail more (take_key r p n header_len)
unfolding take_key
take_key-append r p more n header_len e = ground (
  arith,
  length-append p more,
  get_or-append p more header_len 0,
  get_or-append p more (header_len + 1) 0,
  get_or-append p more (header_len + 2) 0,
  get_or-append p more (header_len + 3) 0,
  take_payload-append (record r { masking_key = no_key }) p more n header_len,
  take_payload-append
      (record r {
        masking_key =
            at p header_len
            ∷ at p (header_len + 1)
            ∷ at p (header_len + 2)
            ∷ at p (header_len + 3)
            ∷ [];
      })
      p more n (header_len + 4),
)

after_length-append :
    (r : Request) (p more : Bytes) (l : LengthField)
    → (after_length r p l).result ≢ need_more
    → after_length r (p ++ more) l ≡ with_tail more (after_length r p l)
unfolding after_length
after_length-append r p more short e = absurd (e refl)
after_length-append r p more refused e = refl
after_length-append r p more (field n h) e = take_key-append r p more n h e

after_length-short :
    (r : Request) (p : Bytes) (l : LengthField)
    → (after_length r p l).result ≢ need_more
    → l ≢ short
unfolding after_length
after_length-short r p short e = absurd (e refl)
after_length-short r p refused e = λ q. cc
after_length-short r p (field n h) e = λ q. cc

-- Once a frame is found, or an error, more bytes behind it change neither the result nor the
-- fields; they are only left in the buffer.
pub try_consume_frame-append :
    (r : Request) (p more : Bytes)
    → (try_consume_frame r p).result ≢ need_more
    → try_consume_frame r (p ++ more) ≡ with_tail more (try_consume_frame r p)
unfolding try_consume_frame
try_consume_frame-append r p more e = ground (
  arith,
  length-append p more,
  get_or-append p more 0 0,
  get_or-append p more 1 0,
  read_length-append p more,
  after_length-short (first_bytes r p) p (read_length p),
  after_length-append (first_bytes r p) p more (read_length p),
)
