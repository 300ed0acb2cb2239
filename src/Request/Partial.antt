-- ===== src/Request/Partial.antt =====
-- On `try_consume_frame` (src/websocket_master/websocket_request.cpp): frames that have not arrived whole.
use web_socket_demo.Prelude.{
  ◌≤◌, ◌≡◌, ◌≢◌, ◌⊎◌, inl, inr, refl, sym, ap, ◌∙◌, arith, [], ◌∷◌, ◌++◌, Bytes, length,
  length-append, append-nil,
}
use web_socket_demo.Protocol.{ws_max_payload_bytes}
use web_socket_demo.Frame.{Frame, encode, IsFrame}
use web_socket_demo.Request.{
  ParseResult, need_more, ok, error, Request, Consumed, try_consume_frame,
}
use web_socket_demo.Request.Decode.{decoded, try_consume_frame-encode}
use web_socket_demo.Request.Stream.{with_tail, try_consume_frame-append}

need_more-cases : (k : ParseResult) → (k ≡ need_more) ⊎ (k ≢ need_more)
need_more-cases need_more = inl refl
need_more-cases ok = inr (λ e. cc)
need_more-cases error = inr (λ e. cc)

-- Given any proper prefix, cut at any byte, of a well-formed frame whose payload is within the
-- limit, the decoder asks for more: it does not fail, and takes no frame too early.
pub try_consume_frame-part :
    (r : Request) (f : Frame) (p more : Bytes)
    → IsFrame f
    → length f.payload ≤ ws_max_payload_bytes
    → p ++ more ≡ encode f
    → more ≢ []
    → (try_consume_frame r p).result ≡ need_more
try_consume_frame-part r f p more v fits whole ne =
    elim (need_more-cases (try_consume_frame r p).result) [
      | inl e ↦ e
      | inr e ↦
          let both : with_tail more (try_consume_frame r p)
              ≡ record { result = ok; request = decoded f; buf = [] } =
            sym (try_consume_frame-append r p more e)
            ∙ ap (try_consume_frame r) (whole ∙ sym (append-nil (encode f)))
            ∙ try_consume_frame-encode r f [] v fits in
          let left : length ((try_consume_frame r p).buf ++ more) ≡ 0 =
            ap (λ (c : Consumed). length c.buf) both in
          absurd
            (ne (empty more (omega (arith, left, length-append (try_consume_frame r p).buf more))))
    ]
  where
    empty : (xs : Bytes) → length xs ≤ 0 → xs ≡ []
    empty [] l = refl
    empty (x ∷ xs) l = absurd (omega arith)
