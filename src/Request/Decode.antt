-- ===== src/Request/Decode.antt =====
-- On `try_consume_frame` (src/websocket_master/websocket_request.cpp): whole frames of RFC 6455.
use web_socket_demo.Prelude.{
  ℕ, ◌+◌, ◌*◌, ◌≤◌, ◌<◌, ◌≡◌, refl, ap, ◌∙◌, [], ◌∷◌, ◌++◌, arith, Bytes, IsBytes, length,
  append_assoc, length-append, get_or-skip,
}
use web_socket_demo.Frame.{
  Form, seven, sixteen, sixty_four, Masking, clear, keyed, Frame, len7, FormHolds, mask_bit,
  key_bytes, xor_key, masked, encode_header, encode, IsFrame,
}
use web_socket_demo.Protocol.{ws_max_payload_bytes}
use web_socket_demo.Request.{
  ok, error, Request, no_key, Consumed, field, read_length, take_payload, take_key, first_bytes,
  try_consume_frame,
}
use web_socket_demo.Request.Fields.{
  read_length-ext, unmask-xor_key, length-xor_key, take_payload-split, take_payload_large,
}

-- The key that the object holds after a frame.
abbrev pub held_key : Masking → Bytes
held_key clear = no_key
held_key (keyed a b c d) = a ∷ b ∷ c ∷ d ∷ []

-- The request that a frame stands for.
abbrev pub decoded : Frame → Request
decoded f = record {
  fin = f.fin;
  opcode = f.opcode;
  mask = mask_bit f.masking;
  masking_key = held_key f.masking;
  payload_length = length f.payload;
  payload = f.payload;
}

take_key-keyed :
    (r : Request) (h : Bytes) (a b c d : ℕ) (tail : Bytes) (n : ℕ)
    → r.mask ≡ 1
    → take_key r (h ++ (a ∷ b ∷ c ∷ d ∷ tail)) n (length h)
      ≡ take_payload
          (record r { masking_key = a ∷ b ∷ c ∷ d ∷ [] })
          (h ++ (a ∷ b ∷ c ∷ d ∷ tail))
          n
          (length h + 4)
unfolding take_key
take_key-keyed r h a b c d tail n m = ground (
  arith,
  length-append h (a ∷ b ∷ c ∷ d ∷ tail),
  get_or-skip h (a ∷ b ∷ c ∷ d ∷ tail) 0 0,
  get_or-skip h (a ∷ b ∷ c ∷ d ∷ tail) 1 0,
  get_or-skip h (a ∷ b ∷ c ∷ d ∷ tail) 2 0,
  get_or-skip h (a ∷ b ∷ c ∷ d ∷ tail) 3 0,
)

-- After the header, on either kind of frame.
take_key-masked :
    (r : Request) (h : Bytes) (m : Masking) (body rest : Bytes)
    → r.mask ≡ mask_bit m
    → IsBytes (key_bytes m)
    → IsBytes body
    → length body ≤ ws_max_payload_bytes
    → take_key r (h ++ (key_bytes m ++ (masked m body ++ rest))) (length body) (length h) ≡ record {
      result = ok;
      request = record r { masking_key = held_key m; payload = body; payload_length = length body };
      buf = rest;
    }
unfolding take_key
take_key-masked r h clear body rest e hk hb fits =
    ground (arith, take_payload-split (record r { masking_key = no_key }) h body rest fits)
take_key-masked r h (keyed a b c d) body rest e hk hb fits =
    let key : Bytes = a ∷ b ∷ c ∷ d ∷ [] in
    let r' : Request = record r { masking_key = key } in
    let hidden : Bytes = xor_key key 0 body in
    let same : length hidden ≡ length body = length-xor_key key 0 body in
    let whole : length (h ++ key) ≡ length h + 4 = length-append h key in
    let split = take_payload-split r' (h ++ key) hidden rest (rw same fits) in
    take_key-keyed r h a b c d (hidden ++ rest) (length body) e
    ∙ ground
        (arith, split, same, whole, append_assoc h key (hidden ++ rest), unmask-xor_key key 0 body)

mask_bit-lt : (m : Masking) → mask_bit m < 2
mask_bit-lt clear = omega arith
mask_bit-lt (keyed a b c d) = omega arith

len7-lt : (f : Form) (n : ℕ) → FormHolds f n → len7 f n < 128
len7-lt seven n h = omega arith
len7-lt sixteen n h = omega arith
len7-lt sixty_four n h = omega arith

header_first_bytes :
    (f : Frame) (tail : Bytes) (r : Request)
    → IsFrame f
    → first_bytes r (encode_header f ++ tail)
      ≡ record r { fin = f.fin; opcode = f.opcode; mask = mask_bit f.masking }
unfolding encode_header
header_first_bytes f tail r v =
    ground (arith, mask_bit-lt f.masking, len7-lt f.form (length f.payload) v.holds)

header_length_field :
    (f : Frame) (tail : Bytes)
    → IsFrame f
    → read_length (encode_header f ++ tail) ≡ field (length f.payload) (length (encode_header f))
unfolding encode_header
header_length_field f tail v = ground (
  arith,
  read_length-ext (f.fin * 128 + f.opcode) (mask_bit f.masking) (length f.payload) f.form tail
      (mask_bit-lt f.masking) v.holds,
)

two-le-header : (f : Frame) (tail : Bytes) → 2 ≤ length (encode_header f ++ tail)
unfolding encode_header
two-le-header f tail = omega arith

-- The parse comes to the key with the header's fields.
try_consume-header :
    (r : Request) (f : Frame) (tail : Bytes)
    → IsFrame f
    → try_consume_frame r (encode_header f ++ tail)
      ≡ take_key
          (record r { fin = f.fin; opcode = f.opcode; mask = mask_bit f.masking })
          (encode_header f ++ tail)
          (length f.payload)
          (length (encode_header f))
unfolding try_consume_frame
try_consume-header r f tail v =
    ground
      (arith, two-le-header f tail, header_first_bytes f tail r v, header_length_field f tail v)

-- Whatever the object held before, a well-formed frame of any length form, masked or not, whose
-- payload is within the limit, is taken from the front of the buffer: the fields are the frame's,
-- the payload is unmasked, and exactly the bytes behind the frame are left.
pub try_consume_frame-encode :
    (r : Request) (f : Frame) (rest : Bytes)
    → IsFrame f
    → length f.payload ≤ ws_max_payload_bytes
    → try_consume_frame r (encode f ++ rest)
      ≡ record { result = ok; request = decoded f; buf = rest }
try_consume_frame-encode r f rest v fits =
    ap (try_consume_frame r) regroup
    ∙ try_consume-header r f tail v
    ∙ take_key-masked (record r { fin = f.fin; opcode = f.opcode; mask = mask_bit f.masking })
        (encode_header f) f.masking f.payload rest refl v.key_are_bytes v.payload_are_bytes fits
  where
    tail : Bytes
    tail = key_bytes f.masking ++ (masked f.masking f.payload ++ rest)

    regroup : encode f ++ rest ≡ encode_header f ++ tail
    regroup = unfold encode in simp append_assoc

-- A well-formed frame whose payload is over the limit is refused as soon as its header and key are
-- there, whatever follows and whatever the object held.
pub try_consume_frame_large :
    (r : Request) (f : Frame) (tail : Bytes)
    → IsFrame f
    → ws_max_payload_bytes < length f.payload
    → (try_consume_frame r (encode_header f ++ (key_bytes f.masking ++ tail))).result ≡ error
try_consume_frame_large r f tail v large =
    ap (λ (c : Consumed). c.result) (try_consume-header r f _ v)
    ∙ refused_by f.masking (encode_header f)
        (record r { fin = f.fin; opcode = f.opcode; mask = mask_bit f.masking }) refl
  where
    refused_by :
        (m : Masking) (h : Bytes) (q : Request)
        → q.mask ≡ mask_bit m
        → (take_key q (h ++ (key_bytes m ++ tail)) (length f.payload) (length h)).result ≡ error
    refused_by clear h q e =
        unfold take_key in
        ground (
          arith,
          take_payload_large (record q { masking_key = no_key }) (h ++ tail) (length f.payload)
              (length h) large,
        )
    refused_by (keyed a b c d) h q e =
        ap (λ (c : Consumed). c.result) (take_key-keyed q h a b c d tail (length f.payload) e)
        ∙ ap (λ (c : Consumed). c.result)
            (take_payload_large _ (h ++ (a ∷ b ∷ c ∷ d ∷ tail)) (length f.payload) _ large)
