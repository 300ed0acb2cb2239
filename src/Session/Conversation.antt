-- ===== src/Session/Conversation.antt =====
-- On the loop over frames in `drive_io` (src/websocket_master/websocket_handler.cpp): a buffer that holds
-- several of them.
use mathlib.Core.Option
use mathlib.Core.Path.{subst}
use web_socket_demo.Prelude.{
  ℕ, ◌+◌, ◌≤◌, ◌≡◌, ◌≢◌, refl, ap, ◌∙◌, arith, Bool, false, ◌&&◌, List, [], ◌∷◌, ◌++◌, none, some,
  Option, Bytes, ◌==◌, if◌then◌else◌, length, length-append, append-nil, append_assoc, All,
}
use web_socket_demo.Protocol.{handsharked, text_data, ws_max_payload_bytes, ws_max_write_buffer}
use web_socket_demo.Frame.{Frame, encode, IsFrame}
use web_socket_demo.Request.{ParseResult, need_more, Request, Consumed, initial, try_consume_frame}
use web_socket_demo.Request.Bounds.{Accounts, try_consume_frame-Accounts}
use web_socket_demo.Request.Fresh.{try_consume_frame-SameOutcome}
use web_socket_demo.Handler.{Handler, Env}
use web_socket_demo.Network.{Network, put, contains}
use web_socket_demo.Network.Broadcast.{deliver, Distinct}
use web_socket_demo.Session.{on_parsed, frame_round_in, frame_round, frames, store}
use web_socket_demo.Session.Replies.{answer, Allocates}
use web_socket_demo.Session.Answers.{IsRound, frame_round-IsRound}
use web_socket_demo.Session.Rounds.{frames_unroll}

-- The frames as they stand in the buffer, and the answers to them.
abbrev pub encode_all : List Frame → Bytes
encode_all [] = []
encode_all (f ∷ fs) = encode f ++ encode_all fs

abbrev pub answers : List Frame → Bytes
answers [] = []
answers (f ∷ fs) = answer f.opcode f.payload ++ answers fs

abbrev pub AreFrames : List Frame → Type 0
AreFrames = All (λ f. IsFrame f × (length f.payload ≤ ws_max_payload_bytes))

-- What another client gets: each text, in order.
abbrev pub deliver_all : List Frame → Handler → Handler
deliver_all [] h = h
deliver_all (f ∷ fs) h =
    deliver_all fs (if f.opcode == text_data then deliver (answer f.opcode f.payload) h else h)

-- The texts among the frames, as the others get them.
abbrev text_of : Frame → Bytes
text_of f = if f.opcode == text_data then answer f.opcode f.payload else []

abbrev pub texts : List Frame → Bytes
texts [] = []
texts (f ∷ fs) = text_of f ++ texts fs

deliver-text_of :
    (f : Frame) (k : Handler)
    → length k.write_buf + length (text_of f) ≤ ws_max_write_buffer
    → (if f.opcode == text_data then deliver (answer f.opcode f.payload) k else k)
      ≡ record k { write_buf = k.write_buf ++ text_of f }
deliver-text_of f k room = ground (arith, append-nil k.write_buf)

pub deliver_all-texts :
    (fs : List Frame) (k : Handler)
    → length k.write_buf + length (texts fs) ≤ ws_max_write_buffer
    → deliver_all fs k ≡ record k { write_buf = k.write_buf ++ texts fs }
deliver_all-texts [] k room = ground (arith, append-nil k.write_buf)
deliver_all-texts (f ∷ fs) k room =
    let split = length-append (text_of f) (texts fs) in
    let g : Handler = record k { write_buf = k.write_buf ++ text_of f } in
    let longer = length-append k.write_buf (text_of f) in
    rw (deliver-text_of f k (omega (arith, room, split))) (
      deliver_all-texts fs g (omega (arith, room, split, longer))
      ∙ ap (λ t. record k { write_buf = t }) (append_assoc k.write_buf (text_of f) (texts fs)))

-- `m` is `n` after the frames `fs` of the object `h` of `fd`, with `tail` left.
pub record IsConversation (n m : Network) (fd : ℕ) (h : Handler) (fs : List Frame) (tail : Bytes)
    : Type 0 where
  pub request : Request
  pub own :
      m.handlers fd
      ≡ some
          (record h { read_buf = tail; write_buf = h.write_buf ++ answers fs; request = request })
  pub others :
      (i : ℕ)
      → i ≢ fd
      → m.handlers i ≡ (
          if contains i n.ws_clients
          then Option.map (deliver_all fs) (n.handlers i)
          else n.handlers i)
  pub same_clients : m.ws_clients ≡ n.ws_clients
  pub spared :
      (i : ℕ) (k : Handler)
      → i ≢ fd
      → n.handlers i ≡ some k
      → length k.write_buf + length (texts fs) ≤ ws_max_write_buffer
      → contains i m.pending_closes ≡ contains i n.pending_closes

map-id : (o : Option Handler) → Option.map (λ h. h) o ≡ o
map-id none = refl
map-id (some h) = refl

-- No whole frame is left.
waiting :
    (env : Env) (n : Network) (fd : ℕ) (h : Handler)
    → n.handlers fd ≡ some h
    → h.status ≡ handsharked
    → (try_consume_frame initial h.read_buf).result ≡ need_more
    → frame_round env n fd ≡ (put n fd (store h (try_consume_frame h.request h.read_buf)), false)
unfolding frame_round frame_round_in on_parsed
waiting env n fd h there shaken e =
    ground (arith, (try_consume_frame-SameOutcome h.request initial h.read_buf).same_result)

pub same_buf :
    (r : Request) (p : Bytes)
    → (try_consume_frame r p).result ≡ need_more
    → (try_consume_frame r p).buf ≡ p
same_buf r p e = kept (try_consume_frame r p) e (try_consume_frame-Accounts r p)
  where
    kept :
        (c : Consumed) → c.result ≡ need_more → Accounts 2 14 p c.result c.request c.buf → c.buf ≡ p
    kept c e a = (subst (λ (k : ParseResult). Accounts 2 14 p k c.request c.buf) e a).0

frames-waiting :
    (env : Env) (n : Network) (fd : ℕ) (h : Handler)
    → n.handlers fd ≡ some h
    → h.status ≡ handsharked
    → (try_consume_frame initial h.read_buf).result ≡ need_more
    → IsConversation n (frames env n fd) fd h [] h.read_buf
frames-waiting env n fd h there shaken e =
    rw (frames_unroll env n fd, waiting env n fd h there shaken e)
      (record {
        request = (try_consume_frame h.request h.read_buf).request;
        own = ground (
          arith,
          same_buf h.request h.read_buf,
          (try_consume_frame-SameOutcome h.request initial h.read_buf).same_result,
          append-nil h.write_buf,
        );
        others = λ i ne. ground (arith, map-id (n.handlers i));
        same_clients = refl;
        spared = λ i k ne e room. refl;
      })

-- One frame, then the others.
joined :
    (n m k : Network) (fd : ℕ) (h : Handler) (f : Frame) (fs : List Frame) (tail rest : Bytes)
    (b : Bool)
    → IsRound n (m, b) fd h f rest
    → IsConversation m k fd
        (record h {
          read_buf = rest;
          write_buf = h.write_buf ++ answer f.opcode f.payload;
          request = initial;
        })
        fs
        tail
    → IsConversation n k fd h (f ∷ fs) tail
joined n m k fd h f fs tail rest b r c = record {
  request = c.request;
  own = ground (arith, c.own, append_assoc h.write_buf (answer f.opcode f.payload) (answers fs));
  others = λ i ne. ground (arith, c.others i ne, r.others i ne, ap (contains i) r.same_clients);
  same_clients = c.same_clients ∙ r.same_clients;
  spared = λ i g ne e room.
      let split = length-append (text_of f) (texts fs) in
      let g' : Handler =
        if f.opcode == text_data && contains i n.ws_clients
        then deliver (answer f.opcode f.payload) g
        else g in
      let there : m.handlers i ≡ some g' = ground (arith, r.others i ne, e) in
      let fits : length g'.write_buf + length (texts fs) ≤ ws_max_write_buffer =
        ground (arith, room, split, length-append g.write_buf (answer f.opcode f.payload)) in
      c.spared i g' ne there fits ∙ ground (arith, r.others_closing i ne, e, room, split);
}

-- An upgraded connection whose buffer holds any number of well-formed frames, each within the
-- payload limit, and then bytes that the decoder wants more of: the frame loop takes exactly the
-- frames and leaves the rest; the sender's write buffer gets their answers in order, and every
-- other registered connection gets the texts in order, each where it fits. No other object
-- changes, nor does the set of clients, and the frames queue no other connection that has room for
-- all the texts. Memory is given, all the answers fit the sender's write buffer, and no client is
-- registered twice.
pub frames-IsConversation :
    (env : Env) (n : Network) (fd : ℕ) (h : Handler) (fs : List Frame) (tail : Bytes)
    → n.handlers fd ≡ some h
    → h.status ≡ handsharked
    → h.read_buf ≡ encode_all fs ++ tail
    → AreFrames fs
    → (try_consume_frame initial tail).result ≡ need_more
    → Allocates env
    → length h.write_buf + length (answers fs) ≤ ws_max_write_buffer
    → Distinct n.ws_clients
    → IsConversation n (frames env n fd) fd h fs tail
frames-IsConversation env n fd h [] tail there shaken buf v wait a room d = rw (← buf) (
    frames-waiting env n fd h there shaken
      (ap (λ t. (try_consume_frame initial t).result) buf ∙ wait))
frames-IsConversation env n fd h (f ∷ fs) tail there shaken buf v wait a room d =
    let rest : Bytes = encode_all fs ++ tail in
    let k : Handler = record h {
      read_buf = rest;
      write_buf = h.write_buf ++ answer f.opcode f.payload;
      request = initial;
    } in
    let r : IsRound n (frame_round env n fd) fd h f rest =
      frame_round-IsRound env n fd h f rest there shaken
        (buf ∙ append_assoc (encode f) (encode_all fs) tail) v.0.0 v.0.1 a
        (omega (arith, room, length-append (answer f.opcode f.payload) (answers fs))) d in
    let c : IsConversation (frame_round env n fd).0 (frames env (frame_round env n fd).0 fd) fd k fs
        tail =
      frames-IsConversation env (frame_round env n fd).0 fd k fs tail r.own shaken refl v.1 wait a
        (omega (
          arith,
          room,
          length-append (answer f.opcode f.payload) (answers fs),
          length-append h.write_buf (answer f.opcode f.payload),
        ))
        (rw r.same_clients d) in
    rw (frames_unroll env n fd, r.goes_on)
      (joined n (frame_round env n fd).0 _ fd h f fs tail rest (frame_round env n fd).1 r c)
