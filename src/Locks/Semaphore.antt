-- ===== src/Locks/Semaphore.antt =====
-- The class Conditional of src/common/CriticalSection.cpp as a semaphore.
use web_socket_demo.Prelude.{
  ℕ, ◌+◌, ◌-◌, ◌≡◌, ◌≤◌, refl, arith, List, [], ◌∷◌, length, ◌⊎◌, inl, inr,
}
use web_socket_demo.Startup.{ℤ, pos, negsuc}
use web_socket_demo.Locks.{Conditional, init}
use web_socket_demo.Locks.Moves.{
  Move, post, await, spurious, resume, step, run, posts, awaits, stirs, debt, credit, Owes, is_stir,
  IsMoved, step-IsMoved,
}

run-Owes :
    (k : ℕ) (es : List Move) (s : Conditional)
    → Owes k s
    → Owes (k + stirs es) (run es s)
      × (debt (run es s).data_count + posts es + credit s.data_count
          ≡ credit (run es s).data_count + awaits es + debt s.data_count)
run-Owes k [] s h = ((h.0, omega (arith, h.1)), omega arith)
run-Owes k (e ∷ es) s h =
    let m : IsMoved k e s (step e s) = step-IsMoved k e s h in
    let (owes, moved) = run-Owes (k + is_stir e) es (step e s) m.owes in
    ((owes.0, more_stirs e owes.1), one_more e m moved)
  where
    more_stirs :
        (e : Move)
        → debt (run es (step e s)).data_count
          ≤ length (run es (step e s)).sleepers + (k + is_stir e + stirs es)
        → debt (run es (step e s)).data_count
          ≤ length (run es (step e s)).sleepers + (k + stirs (e ∷ es))
    more_stirs (post t pick) h = omega (arith, h)
    more_stirs (await t) h = omega (arith, h)
    more_stirs (spurious pick) h = omega (arith, h)
    more_stirs resume h = omega (arith, h)

    one_more :
        (e : Move)
        → IsMoved k e s (step e s)
        → debt (run es (step e s)).data_count + posts es + credit (step e s).data_count
          ≡ credit (run es (step e s)).data_count + awaits es + debt (step e s).data_count
        → debt (run es (step e s)).data_count + posts (e ∷ es) + credit s.data_count
          ≡ credit (run es (step e s)).data_count + awaits (e ∷ es) + debt s.data_count
    one_more (post t pick) m h = omega (arith, m.moved, h)
    one_more (await t) m h = omega (arith, m.moved, h)
    one_more (spurious pick) m h = omega (arith, m.moved, h)
    one_more resume m h = omega (arith, m.moved, h)

one_side : (i : ℤ) → (debt i ≡ 0) ⊎ (credit i ≡ 0)
one_side (pos n) = inl refl
one_side (negsuc n) = inr refl

-- After any calls of signal(false) and of wait() without a time, in any order, with whichever
-- threads the system wakes, also without a signal: the count, taken as an integer that does not
-- overflow, is the calls of signal less those of wait. No more threads sleep than the calls of wait
-- outnumber those of signal, so as soon as there are as many calls of signal nobody sleeps; and
-- fewer sleep only by those that were woken without a signal.
pub run-sleepers :
    (es : List Move)
    → let s = run es init in
      (credit s.data_count ≡ posts es - awaits es)
      × (debt s.data_count ≡ awaits es - posts es)
      × (length s.sleepers ≤ awaits es - posts es)
      × (awaits es - posts es ≤ length s.sleepers + stirs es)
run-sleepers es =
    let (owes, moved) = run-Owes 0 es init (omega arith, omega arith) in
    elim (one_side (run es init).data_count) [
      | inl e ↦ (
        omega (arith, moved, e),
        omega (arith, moved, e),
        omega (arith, owes, moved, e),
        omega (arith, owes, moved, e),
      )
      | inr e ↦ (
        omega (arith, moved, e),
        omega (arith, moved, e),
        omega (arith, owes, moved, e),
        omega (arith, owes, moved, e),
      )
    ]
