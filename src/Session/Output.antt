-- ===== src/Session/Output.antt =====
-- On `drive_io` (src/websocket_master/websocket_handler.cpp): what it puts into the write buffers.
pub mod Answers
pub mod Whole
use mathlib.Core.Option
use web_socket_demo.Prelude.{
  ℕ, ◌+◌, ◌≤◌, ◌<◌, ◌≡◌, refl, sym, ap, ◌∙◌, arith, Bool, true, false, not, ◌&&◌, List, [], ◌∷◌,
  ◌++◌, Option, none, some, Bytes, IsBytes, ◌==◌, if◌then◌else◌, length, append-nil, append_assoc,
  All, All-append, ◌⊎◌, inl, inr, ltb, if-elim, Bool-cases,
}
use web_socket_demo.Protocol.{
  Status, handsharked, unconnect, fin_msg_end, text_data, connect_close, ping_pack, pang_pack,
  need_not_mask, ws_max_payload_bytes, ws_max_write_buffer,
}
use web_socket_demo.Frame.{clear, Frame, minimal_form, encode, encode_header, IsFrame}
use web_socket_demo.Request.{
  ParseResult, need_more, ok, error, Request, try_consume_frame, get_msg, get_msg_length,
  get_msg_opcode,
}
use web_socket_demo.Request.Bounds.{Accounts, try_consume_frame-Accounts}
use web_socket_demo.Request.Octets.{AreOctets, try_consume_frame-AreOctets}
use web_socket_demo.Respond.{pack_data}
use web_socket_demo.Respond.Layout.{server_frame, server_frame-IsFrame, pack_data-encode}
use web_socket_demo.Handler.{Handler, Env, nonempty}
use web_socket_demo.Network.{
  Network, put, queue_close, queue_send, broadcast_round, broadcast_loop, broadcast_ws_binary,
}
use web_socket_demo.Network.Broadcast.{
  deliver, broadcast_round-handlers, refresh_all-handlers, queue_close-handlers,
}
use web_socket_demo.Network.Send.{queue_send-handlers}
use web_socket_demo.Session.{
  on_object, on_packed, handle_one_frame, reset_request, store, on_parsed, frame_round_in,
  frame_round, frames,
}
use web_socket_demo.Session.Cases.{either, at_object}
use web_socket_demo.Session.Conversation.{encode_all}
use web_socket_demo.Session.Replies.{encode-nonempty}
use web_socket_demo.Session.Rounds.{frames_induction}

-- A frame that the server may send: a whole text or a pong, unmasked and in the shortest form.
pub record IsReply (f : Frame) : Type 0 where
  pub valid : IsFrame f
  pub final : f.fin ≡ 1
  pub kind : (f.opcode ≡ text_data) ⊎ (f.opcode ≡ pang_pack)
  pub unmasked : f.masking ≡ clear
  pub shortest : f.form ≡ minimal_form (length f.payload)
  pub within : length f.payload ≤ ws_max_payload_bytes

-- The write buffer has grown by whole frames, a handshake is not undone, and the read buffer holds bytes if it did.
pub record Adds (h h' : Handler) : Type 0 where
  pub replies : List Frame
  pub are_replies : All IsReply replies
  pub written : h'.write_buf ≡ h.write_buf ++ encode_all replies
  pub same_status : h'.status ≡ h.status
  pub stays_bytes : IsBytes h.read_buf → IsBytes h'.read_buf

abbrev pub AddsAt : Option Handler → Option Handler → Type 0
AddsAt none none = Unit {0}
AddsAt none (some h) = ⊥
AddsAt (some h) none = ⊥
AddsAt (some h) (some h') = Adds h h'

abbrev pub Sends : Network → Network → Type 0
Sends n m = (i : ℕ) → AddsAt (n.handlers i) (m.handlers i)

pub encode_all-append :
    (fs gs : List Frame) → encode_all (fs ++ gs) ≡ encode_all fs ++ encode_all gs
encode_all-append [] gs = refl
encode_all-append (f ∷ fs) gs =
    rw (encode_all-append fs gs) (sym (append_assoc (encode f) (encode_all fs) (encode_all gs)))

pub AddsAt-same : (o : Option Handler) → AddsAt o o
AddsAt-same none = tt
AddsAt-same (some h) = record {
  replies = [];
  are_replies = tt;
  written = sym (append-nil h.write_buf);
  same_status = refl;
  stays_bytes = λ b. b;
}

AddsAt-trans : (o p q : Option Handler) → AddsAt o p → AddsAt p q → AddsAt o q
AddsAt-trans none none none a b = tt
AddsAt-trans none none (some k) a b = b
AddsAt-trans none (some h) q a b = absurd a
AddsAt-trans (some g) none q a b = absurd a
AddsAt-trans (some g) (some h) none a b = b
AddsAt-trans (some g) (some h) (some k) a b = record {
  replies = a.replies ++ b.replies;
  are_replies = All-append IsReply a.replies b.replies a.are_replies b.are_replies;
  written = ground (
    arith,
    a.written,
    b.written,
    encode_all-append a.replies b.replies,
    append_assoc g.write_buf (encode_all a.replies) (encode_all b.replies),
  );
  same_status = b.same_status ∙ a.same_status;
  stays_bytes = λ c. b.stays_bytes (a.stays_bytes c);
}

pub Sends-trans : (n m k : Network) → Sends n m → Sends m k → Sends n k
Sends-trans n m k a b i = AddsAt-trans (n.handlers i) (m.handlers i) (k.handlers i) (a i) (b i)

pub Sends-same : (n m : Network) → n.handlers ≡ m.handlers → Sends n m
Sends-same n m e = λ i. rw (ap (λ (t : ℕ → Option Handler). t i) e) (AddsAt-same (m.handlers i))

deliver-Adds : (f : Frame) (h : Handler) → IsReply f → Adds h (deliver (encode f) h)
deliver-Adds f h r =
    elim (Bool-cases (ltb ws_max_write_buffer (length h.write_buf + length (encode f)))) [
      | inl e ↦ rw e (AddsAt-same (some h))
      | inr e ↦ rw e (record {
        replies = f ∷ [];
        are_replies = (r, tt);
        written = ap (λ t. h.write_buf ++ t) (sym (append-nil (encode f)));
        same_status = refl;
        stays_bytes = λ b. b;
      })
    ]

pub delivered-AddsAt :
    (f : Frame) (b : Bool) (o : Option Handler)
    → IsReply f
    → AddsAt o (if b then Option.map (deliver (encode f)) o else o)
delivered-AddsAt f true none r = tt
delivered-AddsAt f true (some h) r = deliver-Adds f h r
delivered-AddsAt f false o r = AddsAt-same o

-- A write to other fields of an object.
pub put-Sends :
    (n : Network) (fd : ℕ) (h h' : Handler)
    → n.handlers fd ≡ some h
    → h'.write_buf ≡ h.write_buf
    → h'.status ≡ h.status
    → (IsBytes h.read_buf → IsBytes h'.read_buf)
    → Sends n (put n fd h')
put-Sends n fd h h' there same status bytes i = at_test (i == fd) (n.handlers i) (λ e. ground arith)
  where
    at_test :
        (b : Bool) (o : Option Handler)
        → (b ≡ true → o ≡ some h)
        → AddsAt o (if b then some h' else o)
    at_test true o e = rw (e refl) (record {
      replies = [];
      are_replies = tt;
      written = same ∙ sym (append-nil h.write_buf);
      same_status = status;
      stays_bytes = bytes;
    })
    at_test false o e = AddsAt-same o

-- The read buffer of the object holds bytes, if there is one.
abbrev pub BytesAt : Option Handler → Type 0
BytesAt none = Unit {0}
BytesAt (some h) = IsBytes h.read_buf

pub AddsAt-BytesAt : (o p : Option Handler) → AddsAt o p → BytesAt o → BytesAt p
AddsAt-BytesAt none none a b = tt
AddsAt-BytesAt none (some h) a b = absurd a
AddsAt-BytesAt (some h) none a b = absurd a
AddsAt-BytesAt (some h) (some k) a b = a.stays_bytes b
