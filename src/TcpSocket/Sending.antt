-- ===== src/TcpSocket/Sending.antt =====
-- On `Send` (src/common/tcpSocket.cpp): what is on the wire, and what is returned.
use web_socket_demo.Prelude.{
  ℕ, zero, suc, ◌+◌, ◌-◌, ◌≡◌, refl, sym, ap, ◌∙◌, arith, Bool, true, false, List, [], ◌∷◌, ◌++◌,
  Bytes, ltb, if◌then◌else◌, length, take, drop, Bool-cases, inl, inr,
}
use web_socket_demo.TcpSocket.{Answer, took, blocked, broke, Sent, send_loop, send}

-- How many of the `left` bytes still to send the kernel takes before it stops, and whether it stops
-- because it is blocked.
abbrev pub accepted : List Answer → ℕ → ℕ
accepted [] left = 0
accepted (took zero ∷ rest) left = 0
accepted (took (suc k) ∷ rest) left =
    let more = accepted rest (left - suc k) in if ltb (suc k) left then suc k + more else suc k
accepted (blocked ∷ rest) left = 0
accepted (broke ∷ rest) left = 0

abbrev pub stalls : List Answer → ℕ → Bool
stalls [] left = true
stalls (took zero ∷ rest) left = false
stalls (took (suc k) ∷ rest) left =
    let more = stalls rest (left - suc k) in if ltb (suc k) left then more else false
stalls (blocked ∷ rest) left = true
stalls (broke ∷ rest) left = false

take-nil : (k : ℕ) → take {A = ℕ} k [] ≡ []
take-nil zero = refl
take-nil (suc k) = refl

take-add : (a b : ℕ) (xs : Bytes) → take a xs ++ take b (drop a xs) ≡ take (a + b) xs
take-add zero b xs = ap (λ (t : ℕ). take t xs) (omega arith)
take-add (suc a) b [] = take-nil b ∙ sym (take-nil (suc a + b))
take-add (suc a) b (x ∷ xs) = ap (◌∷◌ x) (take-add a b xs) ∙ ap (λ (t : ℕ). take t (x ∷ xs)) next
  where
    next : suc (a + b) ≡ suc a + b
    next = omega arith

abbrev after : ℕ → Bytes → Bool → Sent
after n buff b = record { send_len = n; wire = take n buff; is_blocked = b }

-- No more is taken.
stop : (n : ℕ) (buff : Bytes) (b : Bool) → after n buff b ≡ after (n + 0) buff b
stop n buff b = ap (λ (t : ℕ). after t buff b) (omega arith)

send_loop-accepted :
    (answers : List Answer) (buff : Bytes) (n left : ℕ)
    → n + left ≡ length buff
    → send_loop answers buff n (take n buff)
      ≡ after (n + accepted answers left) buff (stalls answers left)
unfolding send_loop
send_loop-accepted [] buff n left e = stop n buff _
send_loop-accepted (took zero ∷ rest) buff n left e = stop n buff _
send_loop-accepted (took (suc k) ∷ rest) buff n left e =
    rw (take-add n (suc k) buff) (elim (Bool-cases (ltb (suc k) left)) [
      | inl more ↦
          let on : send_loop rest buff (n + suc k) (take (n + suc k) buff)
              ≡ after (n + suc k + accepted rest (left - suc k)) buff (stalls rest (left - suc k)) =
            send_loop-accepted rest buff (n + suc k) (left - suc k) (ground (arith, more)) in
          ground (
            arith,
            more,
            on,
            ap (λ (t : ℕ). after t buff (stalls rest (left - suc k)))
                (next (accepted rest (left - suc k))),
          )
      | inr last ↦ ground (arith, last)
    ])
  where
    next : (m : ℕ) → n + suc k + m ≡ n + (suc k + m)
    next m = omega arith
send_loop-accepted (blocked ∷ rest) buff n left e = stop n buff _
send_loop-accepted (broke ∷ rest) buff n left e = stop n buff _

-- `Send` puts on the wire the first bytes of the buffer, in order, as many as the kernel takes until
-- it stops or has them all. It returns their number, but 0 where the kernel blocked at the end, even if it
-- had taken bytes before.
pub send-accepted :
    (answers : List Answer) (buff : Bytes)
    → send answers buff ≡ (
      if stalls answers (length buff) then 0 else accepted answers (length buff),
      take (accepted answers (length buff)) buff,
    )
unfolding send
send-accepted answers buff =
    ground (arith, send_loop-accepted answers buff 0 (length buff) (omega arith))
