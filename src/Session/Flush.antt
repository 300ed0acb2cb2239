-- ===== src/Session/Flush.antt =====
-- On `flush_writes` (src/websocket_master/websocket_handler.cpp): what is left in the write buffer.
use web_socket_demo.Prelude.{
  ℕ, zero, suc, ◌+◌, ◌≡◌, refl, sym, ap, ◌∙◌, arith, Bool, true, false, ◌&&◌, List, [], ◌∷◌, some,
  Bytes, if◌then◌else◌, ltb, length, drop, length-drop,
}
use web_socket_demo.Handler.{Handler}
use web_socket_demo.Network.{Network, put, queue_close}
use web_socket_demo.Session.{Send, sent, full, failed, flush_loop, flush_writes}

-- How many bytes the calls of `send` take before one has no room or fails.
abbrev pub taken : List Send → ℕ
taken [] = 0
taken (sent zero ∷ rest) = 0
taken (sent (suc k) ∷ rest) = suc k + taken rest
taken (full ∷ rest) = 0
taken (failed ∷ rest) = 0

-- Whether that call fails; the source takes 0 for a failure.
abbrev pub breaks : List Send → Bool
breaks [] = false
breaks (sent zero ∷ rest) = true
breaks (sent (suc k) ∷ rest) = breaks rest
breaks (full ∷ rest) = false
breaks (failed ∷ rest) = true

drop-nil : (k : ℕ) (xs : Bytes) → xs ≡ [] → drop k xs ≡ xs
drop-nil zero xs e = refl
drop-nil (suc k) [] e = refl
drop-nil (suc k) (x ∷ xs) e = cc

drop-suc : (k j x : ℕ) (xs : Bytes) → drop (suc k + j) (x ∷ xs) ≡ drop (k + j) xs
drop-suc k j x xs =
    let next : suc k + j ≡ suc (k + j) = omega arith in ap (λ (t : ℕ). drop t (x ∷ xs)) next

drop-drop : (k j : ℕ) (xs : Bytes) → drop j (drop k xs) ≡ drop (k + j) xs
drop-drop zero j xs = ground arith
drop-drop (suc k) j [] = ground (arith, drop-nil j [] refl, drop-nil (suc k + j) [] refl)
drop-drop (suc k) j (x ∷ xs) = drop-drop k j xs ∙ sym (drop-suc k j x xs)

flush_loop-drop :
    (sends : List Send) (buf : Bytes)
    → flush_loop sends buf
      ≡ (drop (taken sends) buf, ltb (taken sends) (length buf) && breaks sends)
unfolding flush_loop
flush_loop-drop sends [] = ground (arith, drop-nil (taken sends) [] refl)
flush_loop-drop [] (x ∷ xs) = ground arith
flush_loop-drop (sent zero ∷ rest) (x ∷ xs) = ground arith
flush_loop-drop (sent (suc k) ∷ rest) (x ∷ xs) =
    flush_loop-drop rest (drop k xs)
    ∙ ground (arith, drop-drop k (taken rest) xs, drop-suc k (taken rest) x xs, length-drop k xs)
flush_loop-drop (full ∷ rest) (x ∷ xs) = ground arith
flush_loop-drop (failed ∷ rest) (x ∷ xs) = ground arith

-- Where the connection has an object, what the kernel took is cut off the front of its write
-- buffer and all else stays, in order; the connection is queued for closing exactly where a call
-- failed with bytes still to send.
pub flush_writes-drop :
    (n : Network) (fd : ℕ) (h : Handler) (sends : List Send)
    → n.handlers fd ≡ some h
    → flush_writes n fd sends ≡ (
        let m = put n fd (record h { write_buf = drop (taken sends) h.write_buf }) in
        if ltb (taken sends) (length h.write_buf) && breaks sends then queue_close m fd else m)
unfolding flush_writes
flush_writes-drop n fd h sends there = ground (arith, flush_loop-drop sends h.write_buf)
