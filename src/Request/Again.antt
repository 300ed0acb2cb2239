-- ===== src/Request/Again.antt =====
-- On `try_consume_frame` (src/websocket_master/websocket_request.cpp): a second call on a buffer that has grown.
use web_socket_demo.Prelude.{
  ℕ, ◌+◌, ◌≤◌, ◌≡◌, ◌≢◌, refl, [], ◌∷◌, ◌++◌, arith, Bytes, length, length-append, get_or-append,
  ◌⊎◌, inl, inr, ltb, Bool-cases,
}
use web_socket_demo.Request.{
  need_more, Request, no_key, at, LengthField, short, refused, field, read_length, take_payload,
  take_key, after_length, first_bytes, try_consume_frame,
}
use web_socket_demo.Request.Stream.{read_length-append}

take_payload_kept :
    (r : Request) (p : Bytes) (n header_len : ℕ)
    → (take_payload r p n header_len).result ≡ need_more
    → (take_payload r p n header_len).request ≡ r
unfolding take_payload
take_payload_kept r p n header_len e = ground arith

-- The key that the first call has read is read again.
take_key_again :
    (r s : Request) (p more : Bytes) (n header_len : ℕ)
    → r.mask ≡ s.mask
    → (take_key r p n header_len).result ≡ need_more
    → take_key
        (record s { masking_key = (take_key r p n header_len).request.masking_key })
        (p ++ more)
        n
        header_len
      ≡ take_key (record s { masking_key = r.masking_key }) (p ++ more) n header_len
unfolding take_key
take_key_again r s p more n header_len m e = ground (
  arith,
  length-append p more,
  get_or-append p more header_len 0,
  get_or-append p more (header_len + 1) 0,
  get_or-append p more (header_len + 2) 0,
  get_or-append p more (header_len + 3) 0,
  take_payload_kept (record r { masking_key = no_key }) p n header_len,
  take_payload_kept
      (record r {
        masking_key =
            at p header_len
            ∷ at p (header_len + 1)
            ∷ at p (header_len + 2)
            ∷ at p (header_len + 3)
            ∷ [];
      })
      p n (header_len + 4),
)

again_from :
    (r s : Request) (p more : Bytes) (l : LengthField)
    → r.mask ≡ s.mask
    → (after_length r p l).result ≡ need_more
    → l ≢ short
    → after_length
        (record s { masking_key = (after_length r p l).request.masking_key })
        (p ++ more)
        l
      ≡ after_length (record s { masking_key = r.masking_key }) (p ++ more) l
unfolding after_length
again_from r s p more short m e ne = refl
again_from r s p more refused m e ne = refl
again_from r s p more (field n h) m e ne = take_key_again r s p more n h m e

-- Nothing but the key and the fields of the first two bytes is touched.
same_rest :
    (r : Request) (p : Bytes) (l : LengthField)
    → (after_length r p l).result ≡ need_more
    → (after_length r p l).request
      ≡ record r { masking_key = (after_length r p l).request.masking_key }
unfolding after_length take_key take_payload
same_rest r p short e = ground arith
same_rest r p refused e = ground arith
same_rest r p (field n h) e = ground arith

short_kept :
    (r : Request) (p : Bytes) (l : LengthField) → l ≡ short → (after_length r p l).request ≡ r
unfolding after_length
short_kept r p short e = refl
short_kept r p refused e = cc
short_kept r p (field n h) e = cc

short_cases : (l : LengthField) → (l ≡ short) ⊎ (l ≢ short)
short_cases short = inl refl
short_cases refused = inr (λ e. cc)
short_cases (field n h) = inr (λ e. cc)

module _ (r : Request) (p more : Bytes) where
  again_at :
      2 ≤ length p
      → (after_length (first_bytes r p) p (read_length p)).result ≡ need_more
      → after_length
          (first_bytes (after_length (first_bytes r p) p (read_length p)).request (p ++ more))
          (p ++ more)
          (read_length (p ++ more))
        ≡ after_length (first_bytes r (p ++ more)) (p ++ more) (read_length (p ++ more))
  again_at long e = elim (short_cases (read_length p)) [
    | inl s ↦ rw (short_kept (first_bytes r p) p (read_length p) s) refl
    | inr ne ↦
        rw (read_length-append p more long ne, same_rest (first_bytes r p) p (read_length p) e)
          (again_from (first_bytes r p) (first_bytes r (p ++ more)) p more (read_length p)
            (ground (arith, get_or-append p more 1 0)) e ne)
  ]

  -- Where the decoder wants more, a second call on the same bytes with others behind them does
  -- what a first call on all of them does: what the first has stored makes no difference.
  pub try_consume_frame_again :
      (try_consume_frame r p).result ≡ need_more
      → try_consume_frame (try_consume_frame r p).request (p ++ more)
        ≡ try_consume_frame r (p ++ more)
  unfolding try_consume_frame
  try_consume_frame_again e = elim (Bool-cases (ltb (length p) 2)) [
    | inl small ↦ rw small refl
    | inr long ↦ ground (arith, long, again_at, length-append p more)
  ]
