-- ===== src/Request/Bounds.antt =====
-- On `try_consume_frame` (src/websocket_master/websocket_request.cpp): what it takes, keeps and waits for.
use web_socket_demo.Prelude.{
  ℕ, suc, ◌+◌, Bool-cases, true, ◌≤◌, ◌<◌, ◌≡◌, inl, inr, refl, ap, [], ◌∷◌, arith, Bytes, ltb,
  length, take, drop, length-take, length-drop,
}
use web_socket_demo.Protocol.{ws_max_payload_bytes}
use web_socket_demo.Request.{
  ParseResult, need_more, ok, error, Request, Consumed, at, LengthField, short, refused, field,
  read_length, unmask, take_payload, take_key, after_length, first_bytes, try_consume_frame,
}

length-unmask : (key : Bytes) (i : ℕ) (xs : Bytes) → length (unmask key i xs) ≡ length xs
unfolding unmask
length-unmask key i [] = refl
length-unmask key i (x ∷ xs) = ap suc (length-unmask key (i + 1) xs)

-- A result, by kind, over a buffer `p`, where the header has `lo` to `hi` bytes.
abbrev pub Accounts : ℕ → ℕ → Bytes → ParseResult → Request → Bytes → Type 0
Accounts lo hi p need_more q buf = (buf ≡ p) × (length p < hi + ws_max_payload_bytes)
Accounts lo hi p error q buf = buf ≡ p
Accounts lo hi p ok q buf =
    (q.payload_length ≤ ws_max_payload_bytes)
    × (length q.payload ≡ q.payload_length)
    × (lo + q.payload_length + length buf ≤ length p)
    × (length p ≤ hi + q.payload_length + length buf)

abbrev pub AccountsFor : ℕ → ℕ → Bytes → Consumed → Type 0
AccountsFor lo hi p c = Accounts lo hi p c.result c.request c.buf

take_payload-Accounts :
    (r : Request) (p : Bytes) (n header_len : ℕ)
    → AccountsFor header_len header_len p (take_payload r p n header_len)
unfolding take_payload
take_payload-Accounts r p n header_len = ground (
  arith,
  length-take n (drop header_len p),
  length-unmask r.masking_key 0 (take n (drop header_len p)),
  length-drop header_len p,
  length-drop (header_len + n) p,
)

take_key-Accounts :
    (r : Request) (p : Bytes) (n header_len : ℕ)
    → AccountsFor header_len (header_len + 4) p (take_key r p n header_len)
unfolding take_key
take_key-Accounts r p n header_len = ground (
  arith,
  length-take n (drop header_len p),
  length-drop header_len p,
  length-drop (header_len + n) p,
  length-take n (drop (header_len + 4) p),
  length-drop (header_len + 4) p,
  length-drop (header_len + 4 + n) p,
  length-unmask
      (at p header_len ∷ at p (header_len + 1) ∷ at p (header_len + 2) ∷ at p (header_len + 3) ∷ [])
      0 (take n (drop (header_len + 4) p)),
)

abbrev Header : Bytes → LengthField → Type 0
Header p short = length p < 10
Header p refused = Unit
Header p (field n h) = (2 ≤ h) × (h ≤ 10)

read_length-Header : (p : Bytes) → Header p (read_length p)
unfolding read_length
read_length-Header p = ground arith

widen :
    (h : ℕ) (p : Bytes) (k : ParseResult) (q : Request) (buf : Bytes)
    → 2 ≤ h
    → h ≤ 10
    → Accounts h (h + 4) p k q buf
    → Accounts 2 14 p k q buf
widen h p need_more q buf l u a = (a.0, omega arith)
widen h p error q buf l u a = a
widen h p ok q buf l u a = (a.0, a.1, omega arith, omega arith)

after_length-Accounts :
    (r : Request) (p : Bytes) (l : LengthField)
    → Header p l
    → AccountsFor 2 14 p (after_length r p l)
unfolding after_length
after_length-Accounts r p short h = (refl, omega arith)
after_length-Accounts r p refused h = refl
after_length-Accounts r p (field n k) h = widen k p _ _ _ h.0 h.1 (take_key-Accounts r p n k)

-- A frame that is taken is accounted for byte by byte: a header of 2 to 14 bytes and a payload of the
-- length told, which is within the limit. On an error and on `need_more` the buffer is as before,
-- and `need_more` is said only of a buffer that is shorter than the longest header and payload.
pub try_consume_frame-Accounts :
    (r : Request) (p : Bytes) → AccountsFor 2 14 p (try_consume_frame r p)
unfolding try_consume_frame
try_consume_frame-Accounts r p = elim (Bool-cases (ltb (length p) 2)) [
  | inl e ↦ rw e (refl, ltb_bound e)
  | inr e ↦ rw e (after_length-Accounts (first_bytes r p) p (read_length p) (read_length-Header p))
]
  where
    ltb_bound : ltb (length p) 2 ≡ true → length p < 14 + ws_max_payload_bytes
    ltb_bound e = ground arith
