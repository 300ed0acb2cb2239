-- ===== src/Request/Octets.antt =====
-- On `try_consume_frame` (src/websocket_master/websocket_request.cpp): of a buffer of bytes it makes a payload of
-- bytes, and leaves bytes.
use web_socket_demo.Prelude.{
  ℕ, ◌+◌, ◌%◌, arith, [], ◌∷◌, Bytes, IsByte, IsBytes, take, drop, All-take, All-drop,
  bit_xor-IsByte,
}
use web_socket_demo.Request.{
  ParseResult, need_more, ok, error, Request, at, LengthField, short, refused, field, no_key,
  read_length, unmask, take_payload, take_key, after_length, first_bytes, try_consume_frame,
}
use web_socket_demo.Request.Fields.{get_or-IsByte}

unmask-IsBytes :
    (key : Bytes) (i : ℕ) (xs : Bytes) → IsBytes key → IsBytes xs → IsBytes (unmask key i xs)
unfolding unmask
unmask-IsBytes key i [] k h = tt
unmask-IsBytes key i (x ∷ xs) k h =
    (bit_xor-IsByte _ _ h.0 (get_or-IsByte key (i % 4) k), unmask-IsBytes key (i + 1) xs k h.1)

-- Of a buffer `buf` and a payload where there is one.
abbrev pub AreOctets : ParseResult → Request → Bytes → Type 0
AreOctets ok q buf = IsBytes q.payload × IsBytes buf
AreOctets need_more q buf = IsBytes buf
AreOctets error q buf = IsBytes buf

take_payload-AreOctets :
    (r : Request) (p : Bytes) (n header_len : ℕ)
    → IsBytes p
    → IsBytes r.masking_key
    → let c = take_payload r p n header_len in AreOctets c.result c.request c.buf
unfolding take_payload
take_payload-AreOctets r p n header_len h k = ground (
  arith,
  All-drop IsByte (header_len + n) p h,
  All-take IsByte n (drop header_len p) (All-drop IsByte header_len p h),
  unmask-IsBytes r.masking_key 0 (take n (drop header_len p)) k
      (All-take IsByte n (drop header_len p) (All-drop IsByte header_len p h)),
)

take_key-AreOctets :
    (r : Request) (p : Bytes) (n header_len : ℕ)
    → IsBytes p
    → let c = take_key r p n header_len in AreOctets c.result c.request c.buf
unfolding take_key
take_key-AreOctets r p n header_len h = ground (
  arith,
  take_payload-AreOctets (record r { masking_key = no_key }) p n header_len h,
  take_payload-AreOctets
      (record r {
        masking_key =
            at p header_len
            ∷ at p (header_len + 1)
            ∷ at p (header_len + 2)
            ∷ at p (header_len + 3)
            ∷ [];
      })
      p n (header_len + 4) h,
  get_or-IsByte p header_len h,
  get_or-IsByte p (header_len + 1) h,
  get_or-IsByte p (header_len + 2) h,
  get_or-IsByte p (header_len + 3) h,
)

after_length-AreOctets :
    (r : Request) (p : Bytes) (l : LengthField)
    → IsBytes p
    → let c = after_length r p l in AreOctets c.result c.request c.buf
unfolding after_length
after_length-AreOctets r p short h = h
after_length-AreOctets r p refused h = h
after_length-AreOctets r p (field n k) h = take_key-AreOctets r p n k h

pub try_consume_frame-AreOctets :
    (r : Request) (p : Bytes)
    → IsBytes p
    → let c = try_consume_frame r p in AreOctets c.result c.request c.buf
unfolding try_consume_frame
try_consume_frame-AreOctets r p h =
    ground (arith, after_length-AreOctets (first_bytes r p) p (read_length p) h)
