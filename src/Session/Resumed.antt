-- ===== src/Session/Resumed.antt =====
-- On the loop over frames in `drive_io` (src/websocket_master/websocket_handler.cpp): the loop on the bytes that
-- have arrived, and again on those that arrive later.
use web_socket_demo.Prelude.{
  ℕ, ◌≤◌, ◌≡◌, refl, sym, ap, ◌∙◌, arith, true, false, Bytes, is_negative, ◌⊎◌, inl, inr,
}
use web_socket_demo.Request.{ParseResult, need_more, ok, error, try_consume_frame}
use web_socket_demo.Handler.{Env}
use web_socket_demo.Network.{Network, put}
use web_socket_demo.Session.{store, frame_round, frames}
use web_socket_demo.Session.Rounds.{unread, frames_unroll, frames_induction, frame_round-shrinks}
use web_socket_demo.Session.Conversation.{same_buf}
use web_socket_demo.Session.Queued.{queued, frames-queued}
use web_socket_demo.Session.Filling.{fill}
use web_socket_demo.Session.Cuts.{
  Upgraded, round_ok, round_kept, round_waiting, round_refused, round_error,
}

result_cases : (k : ParseResult) → (k ≡ ok) ⊎ ((k ≡ need_more) ⊎ (k ≡ error))
result_cases ok = inl refl
result_cases need_more = inr (inl refl)
result_cases error = inr (inr refl)

-- `m` is what the loop makes of `n`; with `more` behind it, it is taken up where it stood.
pub record IsResumed (env : Env) (fd : ℕ) (more : Bytes) (n m : Network) : Type 0 where
  pub resumed : frames env (fill fd more m) fd ≡ frames env (fill fd more n) fd
  pub upgraded : Upgraded m fd
  pub shorter : unread m fd ≤ unread n fd
  pub none_queued : queued m ≡ 0

module _ (env : Env) (fd : ℕ) (more : Bytes) (not_negative : is_negative fd ≡ false) where
  abbrev Resumes : Network → Network → Type 0
  Resumes n m =
      Upgraded n fd → queued (frames env (fill fd more n) fd) ≡ 0 → IsResumed env fd more n m

  last_round : (n : Network) → (frame_round env n fd).1 ≡ false → Resumes n (frame_round env n fd).0
  last_round n stops (h, there, shaken) clean =
      elim (result_cases (try_consume_frame h.request h.read_buf).result) [
        | inl e ↦ cc ((round_ok env fd n h more there shaken e).0)
        | inr (inl e) ↦
            let m : Network = put n fd (store h (try_consume_frame h.request h.read_buf)) in
            let r = round_waiting env fd n h more there shaken e in
            rw r.0 (record {
              resumed =
                  rw
                    (
                      frames_unroll env (fill fd more m) fd,
                      frames_unroll env (fill fd more n) fd,
                      r.1,
                    )
                    refl;
              upgraded = (store h (try_consume_frame h.request h.read_buf), ground arith, shaken);
              shorter = ground (arith, there, same_buf h.request h.read_buf e);
              none_queued = omega (arith, frames-queued env fd (fill fd more n));
            })
        | inr (inr e) ↦
            let r = round_error env fd n h more there shaken e not_negative in
            let ends : frames env (fill fd more n) fd ≡ (frame_round env (fill fd more n) fd).0 =
              rw (frames_unroll env (fill fd more n) fd, r.0) refl in
            absurd (omega (arith, r.1, ap queued ends, clean))
      ]

  next_round :
      (n m : Network)
      → (frame_round env n fd).1 ≡ true
      → Resumes (frame_round env n fd).0 m
      → Resumes n m
  next_round n m goes_on later (h, there, shaken) clean =
      elim (result_cases (try_consume_frame h.request h.read_buf).result) [
        | inl e ↦
            let r : Network = (frame_round env n fd).0 in
            let same : frames env (fill fd more n) fd ≡ frames env (fill fd more r) fd =
              rw
                (frames_unroll env (fill fd more n) fd, (round_ok env fd n h more there shaken e).1)
                refl in
            let after : IsResumed env fd more r m =
              later (round_kept env fd n h more there shaken e).0 (rw (← same) clean) in
            record {
              resumed = after.resumed ∙ sym same;
              upgraded = after.upgraded;
              shorter = omega (arith, after.shorter, frame_round-shrinks env n fd goes_on);
              none_queued = after.none_queued;
            }
        | inr (inl e) ↦ cc ((round_waiting env fd n h more there shaken e).0)
        | inr (inr e) ↦ cc (round_refused env fd n h more there shaken e)
      ]

  pub frames-IsResumed :
      (n : Network)
      → Upgraded n fd
      → queued (frames env (fill fd more n) fd) ≡ 0
      → IsResumed env fd more n (frames env n fd)
  frames-IsResumed = frames_induction env fd Resumes last_round next_round
