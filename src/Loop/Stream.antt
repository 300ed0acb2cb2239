-- ===== src/Loop/Stream.antt =====
-- On the event loop of src/websocket_master/network_interface.cpp: what a connection's peer is sent in the course of
-- any events.
pub mod Driven
pub mod Served
use mathlib.Core.Option
use web_socket_demo.Prelude.{
  ℕ, ◌≡◌, refl, sym, ap, ◌∙◌, arith, List, [], ◌∷◌, ◌++◌, Option, none, some, Bytes, IsBytes,
  append-nil, append_assoc, All, All-append, Bool, true, false, if◌then◌else◌, ◌==◌,
}
use web_socket_demo.Protocol.{handsharked}
use web_socket_demo.Frame.{Frame}
use web_socket_demo.Handler.{Handler}
use web_socket_demo.Network.{Network, put}
use web_socket_demo.Session.Conversation.{encode_all}
use web_socket_demo.Session.Output.{IsReply, Adds, AddsAt, Sends, encode_all-append, BytesAt}

-- `wire` has gone to the peer while the object `h` became `h'`: with what waits now, it is what
-- waited before and then whole frames.
pub record IsStream (wire : Bytes) (h h' : Handler) : Type 0 where
  pub replies : List Frame
  pub are_replies : All IsReply replies
  pub written : wire ++ h'.write_buf ≡ h.write_buf ++ encode_all replies
  pub shaken : h'.status ≡ handsharked

pub record Goes (wire : Bytes) (h h' : Handler) : Type 0 where
  pub stays_bytes : IsBytes h.read_buf → IsBytes h'.read_buf
  pub streams : h.status ≡ handsharked → IsStream wire h h'

-- No object comes or goes.
abbrev pub GoesAt : Bytes → Option Handler → Option Handler → Type 0
GoesAt wire none none = Unit {0}
GoesAt wire none (some h) = ⊥
GoesAt wire (some h) none = ⊥
GoesAt wire (some h) (some h') = Goes wire h h'

abbrev pub AllGo : Network → Network → Type 0
AllGo n m = (i : ℕ) → GoesAt [] (n.handlers i) (m.handlers i)

IsStream-trans :
    (w v : Bytes) (g h k : Handler) → IsStream w g h → IsStream v h k → IsStream (w ++ v) g k
IsStream-trans w v g h k a b = record {
  replies = a.replies ++ b.replies;
  are_replies = All-append IsReply a.replies b.replies a.are_replies b.are_replies;
  written =
      append_assoc w v k.write_buf
      ∙ ap (λ t. w ++ t) b.written
      ∙ sym (append_assoc w h.write_buf (encode_all b.replies))
      ∙ ap (λ t. t ++ encode_all b.replies) a.written
      ∙ append_assoc g.write_buf (encode_all a.replies) (encode_all b.replies)
      ∙ ap (λ t. g.write_buf ++ t) (sym (encode_all-append a.replies b.replies));
  shaken = b.shaken;
}

pub Goes-trans : (w v : Bytes) (g h k : Handler) → Goes w g h → Goes v h k → Goes (w ++ v) g k
Goes-trans w v g h k a b = record {
  stays_bytes = λ c. b.stays_bytes (a.stays_bytes c);
  streams = λ s. IsStream-trans w v g h k (a.streams s) (b.streams ((a.streams s).shaken));
}

GoesAt-trans : (o p q : Option Handler) → GoesAt [] o p → GoesAt [] p q → GoesAt [] o q
GoesAt-trans none none none a b = tt
GoesAt-trans none none (some k) a b = b
GoesAt-trans none (some h) q a b = absurd a
GoesAt-trans (some g) none q a b = absurd a
GoesAt-trans (some g) (some h) none a b = b
GoesAt-trans (some g) (some h) (some k) a b = Goes-trans [] [] g h k a b

pub AllGo-trans : (n m k : Network) → AllGo n m → AllGo m k → AllGo n k
AllGo-trans n m k a b i = GoesAt-trans (n.handlers i) (m.handlers i) (k.handlers i) (a i) (b i)

AddsAt-GoesAt : (o p : Option Handler) → AddsAt o p → GoesAt [] o p
AddsAt-GoesAt none none a = tt
AddsAt-GoesAt none (some h) a = a
AddsAt-GoesAt (some h) none a = a
AddsAt-GoesAt (some h) (some k) a = record {
  stays_bytes = a.stays_bytes;
  streams = λ s. record {
    replies = a.replies;
    are_replies = a.are_replies;
    written = a.written;
    shaken = a.same_status ∙ s;
  };
}

pub Sends-AllGo : (n m : Network) → Sends n m → AllGo n m
Sends-AllGo n m s i = AddsAt-GoesAt (n.handlers i) (m.handlers i) (s i)

pub Goes-same : (h : Handler) → Goes [] h h
Goes-same h = record {
  stays_bytes = λ b. b;
  streams = λ s. record {
    replies = [];
    are_replies = tt;
    written = sym (append-nil h.write_buf);
    shaken = s;
  };
}

GoesAt-same : (o : Option Handler) → GoesAt [] o o
GoesAt-same none = tt
GoesAt-same (some h) = Goes-same h

pub AllGo-same : (n m : Network) → n.handlers ≡ m.handlers → AllGo n m
AllGo-same n m e i = rw (ap (λ (t : ℕ → Option Handler). t i) e) (GoesAt-same (m.handlers i))

pub put-AllGo :
    (n : Network) (fd : ℕ) (h h' : Handler)
    → n.handlers fd ≡ some h
    → Goes [] h h'
    → AllGo n (put n fd h')
put-AllGo n fd h h' there g i = at_test (i == fd) (n.handlers i) (λ e. ground arith)
  where
    at_test :
        (b : Bool) (o : Option Handler)
        → (b ≡ true → o ≡ some h)
        → GoesAt [] o (if b then some h' else o)
    at_test true o e = rw (e refl) g
    at_test false o e = GoesAt-same o

pub GoesAt-BytesAt : (w : Bytes) (o p : Option Handler) → GoesAt w o p → BytesAt o → BytesAt p
GoesAt-BytesAt w none none a b = tt
GoesAt-BytesAt w none (some h) a b = absurd a
GoesAt-BytesAt w (some h) none a b = absurd a
GoesAt-BytesAt w (some h) (some k) a b = a.stays_bytes b
