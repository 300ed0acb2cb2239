-- ===== src/Loop/Stream/Served.antt =====
-- On the event loop of src/websocket_master/network_interface.cpp: the stream of bytes that one peer is sent, over
-- any events.
use mathlib.Core.Option
use mathlib.Core.Option.{none-ne-some}
use web_socket_demo.Prelude.{
  ℕ, ◌≡◌, ◌≢◌, refl, sym, ◌∙◌, arith, Bool, true, false, List, [], ◌++◌, Option, none, some, Bytes,
  append-nil, if◌then◌else◌, ◌==◌, drop, take, take-append-drop, Option-cases, inl, inr,
}
use web_socket_demo.Protocol.{handsharked}
use web_socket_demo.Handler.{Handler, Env, fresh}
use web_socket_demo.Network.{Network, put, queue_close, ctl_event, ctl_event_add, contains}
use web_socket_demo.Network.Broadcast.{queue_close-handlers, update_handler_events-handlers}
use web_socket_demo.Network.Close.{process_close_queue-IsClosed}
use web_socket_demo.Session.{on_object, Send, flush_writes}
use web_socket_demo.Session.Flush.{taken, flush_writes-drop}
use web_socket_demo.Session.Output.{BytesAt}
use web_socket_demo.Loop.{on_readable, on_writable}
use web_socket_demo.Loop.Steps.{Step, accepted, hung_up, readable, writable, closed}
use web_socket_demo.Loop.Stream.{Goes, IsStream, GoesAt, AllGo-same, Goes-trans, Goes-same}
use web_socket_demo.Loop.Stream.Driven.{ReadBytes, on_readable-AllGo}

-- What the kernel takes for the peer of `i` in a step.
abbrev pub wire : {env : Env} {n m : Network} → ℕ → Step env n m → Bytes
wire i (accepted fd e) = []
wire i (hung_up fd) = []
wire i (readable fd reads e) = []
wire {n = n} i (writable fd sends e) =
    if i == fd then on_object (n.handlers i) [] (λ h. take (taken sends) h.write_buf) else []
wire i closed = []

abbrev pub GivesBytes : {env : Env} {n m : Network} → Step env n m → Type 0
GivesBytes (accepted fd e) = Unit {0}
GivesBytes (hung_up fd) = Unit {0}
GivesBytes (readable fd reads e) = ReadBytes reads
GivesBytes (writable fd sends e) = Unit {0}
GivesBytes closed = Unit {0}

-- Every read buffer holds bytes.
abbrev pub AllBytes : Network → Type 0
AllBytes n = (i : ℕ) → BytesAt (n.handlers i)

flushed : List Send → Handler → Handler
flushed sends h = record h { write_buf = drop (taken sends) h.write_buf }

flushed-Goes :
    (sends : List Send) (h : Handler) → Goes (take (taken sends) h.write_buf) h (flushed sends h)
unfolding flushed
flushed-Goes sends h = record {
  stays_bytes = λ b. b;
  streams = λ s. record {
    replies = [];
    are_replies = tt;
    written = take-append-drop (taken sends) h.write_buf ∙ sym (append-nil h.write_buf);
    shaken = s;
  };
}

on_writable-handlers :
    (n : Network) (fd : ℕ) (sends : List Send) (i : ℕ)
    → (on_writable n fd sends).handlers i
      ≡ (if i == fd then Option.map (flushed sends) (n.handlers i) else n.handlers i)
unfolding on_writable flushed
on_writable-handlers n fd sends i = elim (Option-cases (n.handlers fd)) [
  | inl e ↦ ground arith
  | inr (h, e) ↦ ground (
    arith,
    flush_writes-drop n fd h sends e,
    update_handler_events-handlers (flush_writes n fd sends) fd,
    queue_close-handlers (put n fd (record h { write_buf = drop (taken sends) h.write_buf })) fd,
  )
]

-- One object over a step.
StepAt : Bytes → Option Handler → Option Handler → Type 0
StepAt w none p = BytesAt p
StepAt w (some g) none = Unit {0}
StepAt w (some g) (some h) = Goes w g h

of_GoesAt : (w : Bytes) (o p : Option Handler) → GoesAt w o p → StepAt w o p
unfolding StepAt
of_GoesAt w none none a = tt
of_GoesAt w none (some h) a = absurd a
of_GoesAt w (some g) none a = absurd a
of_GoesAt w (some g) (some h) a = a

added :
    (o : Option Handler) (b : Bool)
    → (b ≡ true → o ≡ none)
    → StepAt [] o (if b then some fresh else o)
unfolding StepAt
added none true e = tt
added none false e = tt
added (some h) true e = absurd (none-ne-some h (sym (e refl)))
added (some h) false e = Goes-same h

removed : (o : Option Handler) (b : Bool) → StepAt [] o (if b then none else o)
unfolding StepAt
removed none true = tt
removed none false = tt
removed (some h) true = tt
removed (some h) false = Goes-same h

sent_on :
    (o : Option Handler) (b : Bool) (sends : List Send)
    → StepAt
        (if b then on_object o [] (λ h. take (taken sends) h.write_buf) else [])
        o
        (if b then Option.map (flushed sends) o else o)
unfolding StepAt
sent_on none true sends = tt
sent_on none false sends = tt
sent_on (some h) true sends = flushed-Goes sends h
sent_on (some h) false sends = Goes-same h

step-StepAt :
    (env : Env) (n m : Network) (st : Step env n m)
    → AllBytes n
    → GivesBytes st
    → (i : ℕ) → StepAt (wire i st) (n.handlers i) (m.handlers i)
unfolding ctl_event ctl_event_add
step-StepAt env n _ (accepted fd e) b g i = added (n.handlers i) (i == fd) (λ t. ground arith)
step-StepAt env n _ (hung_up fd) b g i =
    of_GoesAt [] (n.handlers i) ((queue_close n fd).handlers i)
      (AllGo-same n (queue_close n fd) (sym (queue_close-handlers n fd)) i)
step-StepAt env n _ (readable fd reads e) b g i =
    of_GoesAt [] (n.handlers i) ((on_readable env n fd reads).handlers i)
      (on_readable-AllGo env n fd reads g (b fd) i)
step-StepAt env n _ (writable fd sends e) b g i =
    rw (on_writable-handlers n fd sends i) (sent_on (n.handlers i) (i == fd) sends)
step-StepAt env n _ closed b g i =
    rw ((process_close_queue-IsClosed n).0.gone i)
      (removed (n.handlers i) (contains i n.pending_closes))

-- What is so after a step.
StepAt-BytesAt : (w : Bytes) (o p : Option Handler) → StepAt w o p → BytesAt o → BytesAt p
unfolding StepAt
StepAt-BytesAt w none p a b = a
StepAt-BytesAt w (some g) none a b = tt
StepAt-BytesAt w (some g) (some h) a b = a.stays_bytes b

StepAt-open :
    (w : Bytes) (o p : Option Handler) (g : Handler)
    → StepAt w o p
    → o ≡ some g
    → p ≢ none
    → (h : Handler) × (p ≡ some h) × Goes w g h
unfolding StepAt
StepAt-open w none p g a e ne = cc
StepAt-open w (some f) none g a e ne = absurd (ne refl)
StepAt-open w (some f) (some h) g a e ne = let same : f ≡ g = cc in (h, refl, rw (← same) a)

-- Steps of the machine during which `i` keeps its object, and the bytes that the kernel takes for its peer.
pub data Served (env : Env) (i : ℕ) (n : Network) : Bytes → Network → Type 0 where
  here : Served env i n [] n
  go_on :
      {m k : Network} {w v : Bytes}
      → Served env i n w m
      → (st : Step env m k) → GivesBytes st
      → k.handlers i ≢ none
      → v ≡ w ++ wire i st
      → Served env i n v k

module _ (env : Env) (i : ℕ) (n : Network) (bytes : AllBytes n) (g : Handler)
    (there : n.handlers i ≡ some g) where
  Served-Goes :
      (w : Bytes) (m : Network)
      → Served env i n w m
      → AllBytes m × ((h : Handler) × (m.handlers i ≡ some h) × Goes w g h)
  Served-Goes _ _ here = (bytes, (g, there, Goes-same g))
  Served-Goes v k (go_on {m = m} {w = w} s st gives opened e) =
      let (b, (h, at_i, goes)) = Served-Goes w m s in
      let all : (j : ℕ) → StepAt (wire j st) (m.handlers j) (k.handlers j) =
        step-StepAt env m k st b gives in
      let (h', at_k, more) =
        StepAt-open (wire i st) (m.handlers i) (k.handlers i) h (all i) at_i opened in
      (
        λ j. StepAt-BytesAt (wire j st) (m.handlers j) (k.handlers j) (all j) (b j),
        (h', at_k, rw e (Goes-trans w (wire i st) g h h' goes more)),
      )

-- Over any steps of the machine, in any order: new connections, handshakes and any bytes of other peers, frames or
-- not, closes, and however the kernel cuts the sends, as long as an upgraded connection stays open: what its peer
-- has been sent, followed by what waits in its write buffer, is what waited there at the
-- start followed by whole frames, each well-formed, final, unmasked, a text or a pong, in the shortest
-- form and within the payload limit. Nothing of it is lost, repeated or reordered, and no frame is
-- torn. All read buffers hold bytes at the start, and the kernel gives bytes.
pub Served-IsStream :
    (env : Env) (i : ℕ) (n : Network) (h : Handler) (w : Bytes) (m : Network)
    → AllBytes n
    → n.handlers i ≡ some h
    → h.status ≡ handsharked
    → Served env i n w m
    → (h' : Handler) × (m.handlers i ≡ some h') × IsStream w h h'
Served-IsStream env i n h w m b there shaken s =
    let (h', at_m, goes) = (Served-Goes env i n b h there w m s).1 in
    (h', at_m, goes.streams shaken)
