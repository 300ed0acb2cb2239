-- ===== src/Examples/Codec.antt =====
-- The codec's theorems at sample frames.
use web_socket_demo.Prelude.{
  ◌≡◌, refl, arith, true, none, some, [], ◌∷◌, ◌++◌, Bytes, length, if◌then◌else◌, ◌+◌, ◌*◌,
}
use web_socket_demo.Frame.{encode, encode_header, key_bytes}
use web_socket_demo.Request.{
  need_more, ok, error, initial, try_consume_frame, read_length, after_length, take_key,
  take_payload, unmask,
}
use web_socket_demo.Request.Decode.{decoded, try_consume_frame-encode, try_consume_frame_large}
use web_socket_demo.Request.Partial.{try_consume_frame-part}
use web_socket_demo.Request.Stream.{with_tail, try_consume_frame-append}
use web_socket_demo.Request.Bounds.{AccountsFor, try_consume_frame-Accounts}
use web_socket_demo.Respond.{header, header_length, pack_data}
use web_socket_demo.Respond.Layout.{server_frame, pack_data-encode, try_consume_frame-pack_data}
use web_socket_demo.Examples.{
  hi_frame, hi_frame-IsFrame, stale, large_frame, large_frame-IsFrame, length-zeros,
}

try_consume_frame-encode_example :
    try_consume_frame stale (encode hi_frame ++ b'x' ∷ [])
    ≡ record { result = ok; request = decoded hi_frame; buf = b'x' ∷ [] }
try_consume_frame-encode_example =
    try_consume_frame-encode stale hi_frame (b'x' ∷ []) hi_frame-IsFrame (omega arith)

-- A binary run of the decoder, byte by byte.
abbrev hi_bytes : Bytes
hi_bytes = 0x81 ∷ 0x82 ∷ 17 ∷ 34 ∷ 51 ∷ 68 ∷ 89 ∷ 75 ∷ []

encode-hi_frame : encode hi_frame ≡ hi_bytes
unfolding encode encode_header
encode-hi_frame = refl

try_consume_frame-hi_bytes :
    (try_consume_frame initial hi_bytes)
    ≡ record { result = ok; request = decoded hi_frame; buf = [] }
unfolding try_consume_frame read_length after_length take_key take_payload unmask
try_consume_frame-hi_bytes = refl

try_consume_frame_large_example :
    (try_consume_frame stale
      (encode_header large_frame ++ (key_bytes large_frame.masking ++ []))).result
    ≡ error
try_consume_frame_large_example =
    try_consume_frame_large stale large_frame [] large_frame-IsFrame
      (omega (arith, length-zeros (1024 * 1024 + 1)))

try_consume_frame-append_example :
    try_consume_frame initial (hi_bytes ++ b'x' ∷ [])
    ≡ with_tail (b'x' ∷ []) (try_consume_frame initial hi_bytes)
unfolding try_consume_frame read_length after_length take_key take_payload unmask
try_consume_frame-append_example = try_consume_frame-append initial hi_bytes (b'x' ∷ []) (λ e. cc)

try_consume_frame-Accounts_example : AccountsFor 2 14 hi_bytes (try_consume_frame initial hi_bytes)
try_consume_frame-Accounts_example = try_consume_frame-Accounts initial hi_bytes

abbrev hi : Bytes
hi = b'H' ∷ b'i' ∷ []

pack_data-encode_example :
    (pack_data (λ _. true) hi (length hi) 1 1 0
      ≡ (if true then some (encode (server_frame 1 1 hi)) else none))
    × (length (encode (server_frame 1 1 hi)) ≡ header_length (length hi) + length hi)
pack_data-encode_example =
    pack_data-encode (λ _. true) hi 1 1 (omega arith) (omega arith) (omega arith)

try_consume_frame-pack_data_example :
    try_consume_frame stale ((0x81 ∷ 2 ∷ hi) ++ b'x' ∷ [])
    ≡ record { result = ok; request = decoded (server_frame 1 1 hi); buf = b'x' ∷ [] }
unfolding pack_data header
try_consume_frame-pack_data_example =
    try_consume_frame-pack_data (λ _. true) hi 1 1 stale (0x81 ∷ 2 ∷ hi) (b'x' ∷ []) (omega arith)
      (omega arith) (ground arith) (omega arith) refl

try_consume_frame-part_example :
    (try_consume_frame stale (0x81 ∷ 0x82 ∷ 17 ∷ [])).result ≡ need_more
unfolding encode encode_header
try_consume_frame-part_example =
    try_consume_frame-part stale hi_frame (0x81 ∷ 0x82 ∷ 17 ∷ []) (34 ∷ 51 ∷ 68 ∷ 89 ∷ 75 ∷ [])
      hi_frame-IsFrame (omega arith) refl (λ e. cc)
