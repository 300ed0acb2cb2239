-- ===== src/Session/TakenUp.antt =====
-- On `drive_io` (src/websocket_master/websocket_handler.cpp): the call on the bytes that have arrived, and again on
-- those that arrive later, from the request on.
use web_socket_demo.Prelude.{
  ℕ, ◌+◌, ◌≤◌, ◌≡◌, refl, sym, ap, ◌∙◌, arith, Bool, false, [], ◌∷◌, ◌++◌, none, some, Bytes,
  if◌then◌else◌, length, take, drop, length-append, length-drop, take-append, drop-append,
  is_negative, Bool-cases, Option-cases, ◌⊎◌, inl, inr,
}
use web_socket_demo.Protocol.{Status, handsharked, unconnect, ws_max_handshake_bytes}
use web_socket_demo.Text.{codes, find, HeaderMap}
use web_socket_demo.Text.Find.{find-length, find-append}
use web_socket_demo.Handler.{Handler, Env, fetch_http_info}
use web_socket_demo.Network.{Network, put, queue_close}
use web_socket_demo.Session.{frames, upgrade, finish_handshake, seek_headers, drive_in, drive_io}
use web_socket_demo.Session.Queued.{queued}
use web_socket_demo.Session.Listening.{frames-listenfd}
use web_socket_demo.Session.Filling.{read_more, fill}
use web_socket_demo.Session.Cuts.{Upgraded}
use web_socket_demo.Session.Upgrades.{upgrade-fill, upgrade-there, upgrade-listenfd}
use web_socket_demo.Session.Resumed.{IsResumed, frames-IsResumed}

-- `m` is what the call makes of `n`, and the object `h` of `fd`; with `more` behind the bytes it is
-- taken up where it stood.
pub record IsTakenUp (env : Env) (fd : ℕ) (more : Bytes) (n m : Network) (h : Handler)
    : Type 0 where
  pub resumed : drive_io env (fill fd more m) fd ≡ drive_io env (fill fd more n) fd
  pub object : Handler
  pub there : m.handlers fd ≡ some object
  pub shorter : length object.read_buf ≤ length h.read_buf
  pub still_new : object.status ≡ unconnect → h.status ≡ unconnect
  pub none_queued : queued m ≡ 0
  pub same_listenfd : m.listenfd ≡ n.listenfd

status_cases : (s : Status) → (s ≡ unconnect) ⊎ (s ≡ handsharked)
status_cases unconnect = inl refl
status_cases handsharked = inr refl

module _ (env : Env) (fd : ℕ) where
  pub drive_io-frames : (n : Network) → Upgraded n fd → drive_io env n fd ≡ frames env n fd
  unfolding drive_io drive_in
  drive_io-frames n (h, there, shaken) = ground arith

  fill-Upgraded : (n : Network) (more : Bytes) → Upgraded n fd → Upgraded (fill fd more n) fd
  fill-Upgraded n more (h, there, shaken) = (read_more more h, ground (arith, there), shaken)

  module _ (n : Network) (h : Handler) (there : n.handlers fd ≡ some h) (new : h.status ≡ unconnect)
      (pos : ℕ) (found : find (codes "\r\n\r\n") h.read_buf ≡ some pos) where
    fetched : HeaderMap × Bool
    fetched = fetch_http_info h.header_map (take (pos + 4) h.read_buf)

    -- The object with the request cut off.
    behind : Handler
    behind = record h { read_buf = drop (pos + 4) h.read_buf; header_map = fetched.0 }

    long : pos + 4 ≤ length h.read_buf
    long = find-length (codes "\r\n\r\n") h.read_buf pos found

    drive_io-finish :
        length h.read_buf ≤ ws_max_handshake_bytes
        → drive_io env n fd ≡ (
            if fetched.1
            then frames env (upgrade env n fd behind) fd
            else queue_close (put n fd behind) fd)
    unfolding drive_io drive_in seek_headers finish_handshake fetched behind
    drive_io-finish fits = ground (arith, there, new, found)

    drive_io-finish_fill :
        (more : Bytes)
        → length h.read_buf + length more ≤ ws_max_handshake_bytes
        → drive_io env (fill fd more n) fd ≡ (
            if fetched.1
            then frames env (fill fd more (upgrade env n fd behind)) fd
            else queue_close (put (fill fd more n) fd (read_more more behind)) fd)
    unfolding drive_io drive_in seek_headers finish_handshake fetched behind
    drive_io-finish_fill more fits =
        let at_fd : (fill fd more n).handlers fd ≡ some (read_more more h) = ground arith in
        let again : find (codes "\r\n\r\n") (h.read_buf ++ more) ≡ some pos =
          find-append (codes "\r\n\r\n") h.read_buf more pos found in
        let taken : take (pos + 4) (h.read_buf ++ more) ≡ take (pos + 4) h.read_buf =
          take-append (pos + 4) h.read_buf more long in
        let left : drop (pos + 4) (h.read_buf ++ more) ≡ drop (pos + 4) h.read_buf ++ more =
          drop-append (pos + 4) h.read_buf more long in
        ground (
          arith,
          at_fd,
          new,
          again,
          taken,
          left,
          length-append h.read_buf more,
          upgrade-fill env fd n behind more,
        )

  drive_io-waiting :
      (n : Network) (h : Handler)
      → n.handlers fd ≡ some h
      → h.status ≡ unconnect
      → find (codes "\r\n\r\n") h.read_buf ≡ none
      → length h.read_buf ≤ ws_max_handshake_bytes
      → drive_io env n fd ≡ n
  unfolding drive_io drive_in seek_headers
  drive_io-waiting n h there new none_found fits = ground (arith, there, new, none_found)

  module _ (more : Bytes) (not_negative : is_negative fd ≡ false) where
    -- The loop over frames, where it is what the call does.
    by_frames :
        (n m : Network) (h k : Handler)
        → drive_io env n fd ≡ frames env m fd
        → drive_io env (fill fd more n) fd ≡ frames env (fill fd more m) fd
        → m.handlers fd ≡ some k
        → k.status ≡ handsharked
        → length k.read_buf ≤ length h.read_buf
        → m.listenfd ≡ n.listenfd
        → queued (drive_io env (fill fd more n) fd) ≡ 0
        → IsTakenUp env fd more n (drive_io env n fd) h
    by_frames n m h k part whole there shaken shorter same clean =
        let r : IsResumed env fd more m (frames env m fd) =
          frames-IsResumed env fd more not_negative m (k, there, shaken) (rw (← whole) clean) in
        let (k', there', shaken') = r.upgraded in
        rw part (record {
          resumed =
              drive_io-frames (fill fd more (frames env m fd))
                (fill-Upgraded (frames env m fd) more r.upgraded)
              ∙ r.resumed
              ∙ sym whole;
          object = k';
          there = there';
          shorter = ground (arith, r.shorter, there', there, shorter);
          still_new = λ e. cc;
          none_queued = r.none_queued;
          same_listenfd = frames-listenfd env fd m ∙ same;
        })

    new-IsTakenUp :
        (n : Network) (h : Handler)
        → n.handlers fd ≡ some h
        → h.status ≡ unconnect
        → length h.read_buf + length more ≤ ws_max_handshake_bytes
        → queued n ≡ 0
        → queued (drive_io env (fill fd more n) fd) ≡ 0
        → IsTakenUp env fd more n (drive_io env n fd) h
    unfolding queue_close
    new-IsTakenUp n h there new fits quiet clean =
        elim (Option-cases (find (codes "\r\n\r\n") h.read_buf)) [
          | inl e ↦ rw (drive_io-waiting n h there new e (omega arith)) (record {
            resumed = refl;
            object = h;
            there = there;
            shorter = omega arith;
            still_new = λ u. u;
            none_queued = quiet;
            same_listenfd = refl;
          })
          | inr (pos, e) ↦
              let k : Handler = behind n h there new pos e in
              let part = drive_io-finish n h there new pos e (omega arith) in
              let whole = drive_io-finish_fill n h there new pos e more fits in
              elim (Bool-cases (fetched n h there new pos e).1) [
                | inl ok ↦
                    let (k', there', shaken, same) = upgrade-there env fd n k in
                    by_frames n (upgrade env n fd k) h k' (part ∙ rw ok refl) (whole ∙ rw ok refl)
                      there' shaken
                      (unfold behind in
                        omega (arith, ap length same, length-drop (pos + 4) h.read_buf))
                      (upgrade-listenfd env fd n k) clean
                | inr bad ↦
                    let ends : drive_io env (fill fd more n) fd
                        ≡ queue_close (put (fill fd more n) fd (read_more more k)) fd =
                      whole ∙ rw bad refl in
                    absurd (ground (arith, clean, ends, length-append n.pending_closes (fd ∷ [])))
              ]
        ]

    -- Where nothing is queued for closing before the call, nor after it where all bytes are there.
    pub drive_io-IsTakenUp :
        (n : Network) (h : Handler)
        → n.handlers fd ≡ some h
        → (h.status ≡ unconnect → length h.read_buf + length more ≤ ws_max_handshake_bytes)
        → queued n ≡ 0
        → queued (drive_io env (fill fd more n) fd) ≡ 0
        → IsTakenUp env fd more n (drive_io env n fd) h
    drive_io-IsTakenUp n h there fits quiet clean = elim (status_cases h.status) [
      | inl new ↦ new-IsTakenUp n h there new (fits new) quiet clean
      | inr shaken ↦
          by_frames n n h h (drive_io-frames n (h, there, shaken))
            (drive_io-frames (fill fd more n) (fill-Upgraded n more (h, there, shaken))) there
            shaken (omega arith) refl clean
    ]
