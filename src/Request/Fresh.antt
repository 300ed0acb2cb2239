-- ===== src/Request/Fresh.antt =====
-- On `try_consume_frame` (src/websocket_master/websocket_request.cpp): what the object held before a call.
use web_socket_demo.Prelude.{ℕ, ◌≡◌, refl, arith, Bytes, ltb, Bool-cases, inl, inr, length}
use web_socket_demo.Request.{
  ok, Request, Consumed, LengthField, short, refused, field, read_length, take_key, after_length,
  first_bytes, try_consume_frame,
}

-- The same result and buffer, and the same fields where a frame was taken.
pub record SameOutcome (c d : Consumed) : Type 0 where
  pub same_result : c.result ≡ d.result
  pub same_buf : c.buf ≡ d.buf
  pub same_request : c.result ≡ ok → c.request ≡ d.request

-- The fields that the first two bytes set.
record SameHead (r s : Request) : Type 0 where
  fin : r.fin ≡ s.fin
  opcode : r.opcode ≡ s.opcode
  mask : r.mask ≡ s.mask

take_key-SameOutcome :
    (r s : Request) (p : Bytes) (n h : ℕ)
    → SameHead r s
    → SameOutcome (take_key r p n h) (take_key s p n h)
unfolding take_key
take_key-SameOutcome r s p n h e = ground arith

after_length-SameOutcome :
    (r s : Request) (p : Bytes) (l : LengthField)
    → SameHead r s
    → SameOutcome (after_length r p l) (after_length s p l)
unfolding after_length
after_length-SameOutcome r s p short e = ground arith
after_length-SameOutcome r s p refused e = ground arith
after_length-SameOutcome r s p (field n h) e = take_key-SameOutcome r s p n h e

-- Two objects that are given the same buffer decide alike, and hold the same frame if there is one.
pub try_consume_frame-SameOutcome :
    (r s : Request) (p : Bytes) → SameOutcome (try_consume_frame r p) (try_consume_frame s p)
unfolding try_consume_frame
try_consume_frame-SameOutcome r s p = elim (Bool-cases (ltb (length p) 2)) [
  | inl e ↦ rw e (record { same_result = refl; same_buf = refl; same_request = λ h. cc })
  | inr e ↦ rw e (
      after_length-SameOutcome (first_bytes r p) (first_bytes s p) p (read_length p)
        (record { fin = refl; opcode = refl; mask = refl }))
]
