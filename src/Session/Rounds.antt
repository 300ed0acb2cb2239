-- ===== src/Session/Rounds.antt =====
-- On the loop over frames in `drive_io` (src/websocket_master/websocket_handler.cpp): its fuel.
use web_socket_demo.Prelude.{
  ℕ, zero, suc, ◌+◌, ◌≤◌, ◌<◌, ◌≡◌, refl, ◌∙◌, arith, Bool, true, false, none, some, Option, Bytes,
  if◌then◌else◌, length, Bool-cases, inl, inr,
}
use web_socket_demo.Protocol.{Status, unconnect, handsharked}
use web_socket_demo.Request.Bounds.{Accounts, try_consume_frame-Accounts}
use web_socket_demo.Request.{ParseResult, need_more, ok, error, Request, try_consume_frame}
use web_socket_demo.Handler.{Handler, Env}
use web_socket_demo.Network.{Network, put}
use web_socket_demo.Session.Seen.{handle_one_frame-seen}
use web_socket_demo.Session.{
  on_object, handle_one_frame, reset_request, store, on_parsed, frame_round_in, frame_round,
  frame_loop, fuel_for, frames,
}

-- How many bytes wait in the read buffer of a descriptor's object.
abbrev pub unread : Network → ℕ → ℕ
unread n fd = on_object (n.handlers fd) 0 λ h. length h.read_buf

handle_one_frame-unread :
    (env : Env) (n : Network) (fd : ℕ) (q : Request) (i : ℕ)
    → unread (handle_one_frame env n fd q) i ≡ unread n i
handle_one_frame-unread env n fd q i =
    handle_one_frame-seen 0 (λ h. length h.read_buf) (λ h w. refl) env n fd q i

reset_request-unread : (n : Network) (fd i : ℕ) → unread (reset_request n fd) i ≡ unread n i
unfolding reset_request
reset_request-unread n fd i = ground arith

-- Where the loop goes on a frame was taken, and with it two bytes or more.
on_parsed-shrinks :
    (env : Env) (m : Network) (fd : ℕ) (p buf : Bytes) (q : Request) (k : ParseResult)
    → unread m fd ≡ length buf
    → Accounts 2 14 p k q buf
    → (on_parsed env m fd q k).1 ≡ true
    → 2 + unread (on_parsed env m fd q k).0 fd ≤ length p
unfolding on_parsed
on_parsed-shrinks env m fd p buf q need_more u a e = cc
on_parsed-shrinks env m fd p buf q error u a e = cc
on_parsed-shrinks env m fd p buf q ok u a e = omega (
  arith,
  a.2,
  u,
  reset_request-unread (handle_one_frame env m fd q) fd fd,
  handle_one_frame-unread env m fd q fd,
)

put-unread : (n : Network) (fd : ℕ) (h : Handler) → unread (put n fd h) fd ≡ length h.read_buf
put-unread n fd h = ground arith

frame_round_in-shrinks :
    (env : Env) (n : Network) (fd : ℕ) (h : Handler) (s : Status)
    → (frame_round_in env n fd h s).1 ≡ true
    → 2 + unread (frame_round_in env n fd h s).0 fd ≤ length h.read_buf
unfolding frame_round_in
frame_round_in-shrinks env n fd h unconnect e = cc
frame_round_in-shrinks env n fd h handsharked e =
    let c = try_consume_frame h.request h.read_buf in
    on_parsed-shrinks env (put n fd (store h c)) fd h.read_buf c.buf c.request c.result
      (put-unread n fd (store h c)) (try_consume_frame-Accounts h.request h.read_buf) e

pub frame_round-shrinks :
    (env : Env) (n : Network) (fd : ℕ)
    → (frame_round env n fd).1 ≡ true
    → 2 + unread (frame_round env n fd).0 fd ≤ unread n fd
unfolding frame_round
frame_round-shrinks env n fd = by_object (n.handlers fd)
  where
    by_object :
        (o : Option Handler)
        → let r = on_object o (n, false) (λ h. frame_round_in env n fd h h.status) in
          r.1 ≡ true → 2 + unread r.0 fd ≤ on_object o 0 (λ h. length h.read_buf)
    by_object none e = cc
    by_object (some h) e = frame_round_in-shrinks env n fd h h.status e

frame_loop_fuel :
    (env : Env) (f g : ℕ) (n : Network) (fd : ℕ)
    → unread n fd < f
    → unread n fd < g
    → frame_loop env f n fd ≡ frame_loop env g n fd
unfolding frame_loop
frame_loop_fuel env zero g n fd hf hg = absurd (omega arith)
frame_loop_fuel env (suc f) zero n fd hf hg = absurd (omega arith)
frame_loop_fuel env (suc f) (suc g) n fd hf hg =
    by_test (frame_round env n fd).1 (frame_round-shrinks env n fd)
      (frame_loop_fuel env f g (frame_round env n fd).0 fd)
  where
    m : Network
    m = (frame_round env n fd).0

    by_test :
        (b : Bool)
        → (b ≡ true → 2 + unread m fd ≤ unread n fd)
        → (unread m fd < f → unread m fd < g → frame_loop env f m fd ≡ frame_loop env g m fd)
        → elim b as (λ _. Network) [ true ↦ frame_loop env f m fd | false ↦ m ]
          ≡ elim b as (λ _. Network) [ true ↦ frame_loop env g m fd | false ↦ m ]
    by_test false less ih = refl
    by_test true less ih =
        let l : 2 + unread m fd ≤ unread n fd = less refl in ih (omega arith) (omega arith)

fuel_for-unread : (n : Network) (fd : ℕ) → fuel_for n fd ≡ suc (unread n fd)
fuel_for-unread n fd = ground arith

-- The frame loop is the `while` of the source: one round, and the loop again where the round took
-- a frame. The fuel that the model counts is never short.
pub frames_unroll :
    (env : Env) (n : Network) (fd : ℕ)
    → frames env n fd ≡ (
        if (frame_round env n fd).1
        then frames env (frame_round env n fd).0 fd
        else (frame_round env n fd).0)
unfolding frames frame_loop
frames_unroll env n fd =
    rw (fuel_for-unread n fd) (
      frame_loop_fuel env (suc (unread n fd)) (suc (suc (unread n fd))) n fd (omega arith)
        (omega arith))
    ∙ by_test (frame_round env n fd).1 (frame_round-shrinks env n fd)
  where
    m : Network
    m = (frame_round env n fd).0

    by_test :
        (b : Bool)
        → (b ≡ true → 2 + unread m fd ≤ unread n fd)
        → elim b as (λ _. Network) [ true ↦ frame_loop env (suc (unread n fd)) m fd | false ↦ m ]
          ≡ (if b then frame_loop env (fuel_for m fd) m fd else m)
    by_test false less = refl
    by_test true less =
        let l : 2 + unread m fd ≤ unread n fd = less refl in
        frame_loop_fuel env (suc (unread n fd)) (fuel_for m fd) m fd (omega arith)
          (omega (arith, fuel_for-unread m fd))

-- What the last round gives, and each round that goes on passes back, holds of the loop.
pub frames_induction :
    (env : Env) (fd : ℕ) (P : Network → Network → Type 0)
    → ((n : Network) → (frame_round env n fd).1 ≡ false → P n (frame_round env n fd).0)
    → ((n m : Network) → (frame_round env n fd).1 ≡ true → P (frame_round env n fd).0 m → P n m)
    → (n : Network) → P n (frames env n fd)
frames_induction env fd P last step n = below (suc (unread n fd)) n (omega arith)
  where
    below : (k : ℕ) (n : Network) → unread n fd < k → P n (frames env n fd)
    below zero n h = absurd (omega arith)
    below (suc k) n h = elim (Bool-cases (frame_round env n fd).1) [
      | inl e ↦
          rw (frames_unroll env n fd, e)
            (step n _ e
              (below k (frame_round env n fd).0 (omega (arith, frame_round-shrinks env n fd e))))
      | inr e ↦ rw (frames_unroll env n fd, e) (last n e)
    ]
