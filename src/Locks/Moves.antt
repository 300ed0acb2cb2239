-- ===== src/Locks/Moves.antt =====
-- What single calls do to the class Conditional of src/common/CriticalSection.cpp: the count and the sleepers.
use web_socket_demo.Prelude.{
  ℕ, zero, suc, ◌+◌, ◌-◌, ◌≡◌, ◌≤◌, refl, ap, ◌∙◌, arith, Bool, true, false, List, [], ◌∷◌, Option,
  some, if◌then◌else◌, length, length-append, if-elim,
}
use web_socket_demo.Startup.{ℤ, pos, negsuc}
use web_socket_demo.Locks.{
  Sleeper, Conditional, plus_one, minus_one, is_positive, taken, wake_one, signal, sleep,
  enter_mutex, leave_mutex, wait, stir, wake_up, unless_locked,
}

-- What threads do with a Conditional, one at a time: `post` is signal(false), with the place of the
-- thread that the system picks, `await` is wait() by a thread, `spurious` wakes the sleeper at a place without
-- a signal, and `resume` is a return from the condition.
pub data Move : Type 0 where
  post : ℕ → ℕ → Move
  await : ℕ → Move
  spurious : ℕ → Move
  resume : Move

abbrev pub step : Move → Conditional → Conditional
step (post t pick) s = signal t false pick s
step (await t) s = (wait t 0 false s).1
step (spurious pick) s = stir pick s.sleepers s
step resume s = (wake_up s.ready s).1

abbrev pub run : List Move → Conditional → Conditional
run [] s = s
run (e ∷ es) s = run es (step e s)

abbrev pub posts : List Move → ℕ
posts [] = 0
posts (post t pick ∷ es) = suc (posts es)
posts (await t ∷ es) = posts es
posts (spurious pick ∷ es) = posts es
posts (resume ∷ es) = posts es

abbrev pub awaits : List Move → ℕ
awaits [] = 0
awaits (post t pick ∷ es) = awaits es
awaits (await t ∷ es) = suc (awaits es)
awaits (spurious pick ∷ es) = awaits es
awaits (resume ∷ es) = awaits es

abbrev pub stirs : List Move → ℕ
stirs [] = 0
stirs (post t pick ∷ es) = stirs es
stirs (await t ∷ es) = stirs es
stirs (spurious pick ∷ es) = suc (stirs es)
stirs (resume ∷ es) = stirs es

-- How far the count is below 0, and above.
abbrev pub debt : ℤ → ℕ
debt (pos n) = 0
debt (negsuc n) = suc n

abbrev pub credit : ℤ → ℕ
credit (pos n) = n
credit (negsuc n) = 0

-- No more sleep than the count says, and as many but for `k` that were woken without a signal.
abbrev pub Owes : ℕ → Conditional → Type 0
Owes k s = (length s.sleepers ≤ debt s.data_count) × (debt s.data_count ≤ length s.sleepers + k)

taken-length : (k : ℕ) (x : Sleeper) (xs : List Sleeper) → length (taken k x xs).1 ≡ length xs
taken-length zero x xs = refl
taken-length (suc k) x [] = refl
taken-length (suc k) x (y ∷ ys) = omega (arith, taken-length k y ys)

wake_one-sleepers :
    (pick : ℕ) (xs : List Sleeper) (s : Conditional)
    → s.sleepers ≡ xs
    → length (wake_one pick xs s).sleepers ≡ length xs - 1
unfolding wake_one
wake_one-sleepers pick [] s e = rw e refl
wake_one-sleepers pick (x ∷ xs) s e = omega (arith, taken-length pick x xs)

wake_one-count :
    (pick : ℕ) (xs : List Sleeper) (s : Conditional)
    → (wake_one pick xs s).data_count ≡ s.data_count
unfolding wake_one
wake_one-count pick [] s = refl
wake_one-count pick (x ∷ xs) s = refl

stir-sleepers :
    (pick : ℕ) (xs : List Sleeper) (s : Conditional)
    → s.sleepers ≡ xs
    → length (stir pick xs s).sleepers ≡ length xs - 1
unfolding stir
stir-sleepers pick [] s e = rw e refl
stir-sleepers pick (x ∷ xs) s e = omega (arith, taken-length pick x xs)

stir-count :
    (pick : ℕ) (xs : List Sleeper) (s : Conditional) → (stir pick xs s).data_count ≡ s.data_count
unfolding stir
stir-count pick [] s = refl
stir-count pick (x ∷ xs) s = refl

abbrev pub is_post : Move → ℕ
is_post (post t pick) = 1
is_post (await t) = 0
is_post (spurious pick) = 0
is_post resume = 0

abbrev pub is_await : Move → ℕ
is_await (post t pick) = 0
is_await (await t) = 1
is_await (spurious pick) = 0
is_await resume = 0

abbrev pub is_stir : Move → ℕ
is_stir (post t pick) = 0
is_stir (await t) = 0
is_stir (spurious pick) = 1
is_stir resume = 0

-- One step keeps the sleepers in line with the count, and moves the count by one.
pub record IsMoved (k : ℕ) (e : Move) (s r : Conditional) : Type 0 where
  pub owes : Owes (k + is_stir e) r
  pub moved :
      debt r.data_count + is_post e + credit s.data_count
      ≡ credit r.data_count + is_await e + debt s.data_count

plus_one-debt :
    (i : ℤ)
    → (debt (plus_one i) ≡ debt i - 1)
      × (debt (plus_one i) + 1 + credit i ≡ credit (plus_one i) + debt i)
plus_one-debt (pos n) = (refl, omega arith)
plus_one-debt (negsuc zero) = (refl, refl)
plus_one-debt (negsuc (suc n)) = (omega arith, omega arith)

minus_one-debt :
    (i : ℤ)
    → (debt (minus_one i) ≡ (if is_positive i then debt i else debt i + 1))
      × (debt (minus_one i) + credit i ≡ credit (minus_one i) + 1 + debt i)
minus_one-debt (pos zero) = (refl, refl)
minus_one-debt (pos (suc n)) = (refl, omega arith)
minus_one-debt (negsuc n) = (omega arith, omega arith)

post-IsMoved :
    (k t pick : ℕ) (s : Conditional) → Owes k s → IsMoved k (post t pick) s (signal t false pick s)
unfolding signal enter_mutex leave_mutex
post-IsMoved k t pick s h =
    let c : Conditional = record s { mutex = some t; data_count = plus_one s.data_count } in
    let count : (wake_one pick s.sleepers c).data_count ≡ plus_one s.data_count =
      wake_one-count pick s.sleepers c in
    let (less, moved) = plus_one-debt s.data_count in
    record {
      owes = (
        omega (arith, wake_one-sleepers pick s.sleepers c refl, ap debt count, less, h),
        omega (arith, wake_one-sleepers pick s.sleepers c refl, ap debt count, less, h),
      );
      moved = omega (arith, ap debt count, ap credit count, moved);
    }

await-IsMoved : (k t : ℕ) (s : Conditional) → Owes k s → IsMoved k (await t) s (wait t 0 false s).1
unfolding wait enter_mutex leave_mutex sleep
await-IsMoved k t s h =
    let (more, moved) = minus_one-debt s.data_count in
    if-elim (λ (r : Option Bool × Conditional). IsMoved k (await t) s r.1)
      (is_positive s.data_count)
      (λ e.
        let same : debt (minus_one s.data_count) ≡ debt s.data_count = more ∙ rw e refl in
        record {
          owes = (omega (arith, same, h), omega (arith, same, h));
          moved = omega (arith, moved);
        })
      (λ e.
        let longer =
          length-append s.sleepers (record { thread = t; is_timed = false; locked = false } ∷ []) in
        let slept : debt (minus_one s.data_count) ≡ debt s.data_count + 1 = more ∙ rw e refl in
        record {
          owes = (omega (arith, longer, slept, h), omega (arith, longer, slept, h));
          moved = omega (arith, moved);
        })

spurious-IsMoved :
    (k pick : ℕ) (s : Conditional) → Owes k s → IsMoved k (spurious pick) s (stir pick s.sleepers s)
spurious-IsMoved k pick s h =
    let count : (stir pick s.sleepers s).data_count ≡ s.data_count = stir-count pick s.sleepers s in
    let fewer = stir-sleepers pick s.sleepers s refl in
    record {
      owes = (omega (arith, fewer, ap debt count, h), omega (arith, fewer, ap debt count, h));
      moved = omega (arith, ap debt count, ap credit count);
    }

resume-IsMoved :
    (k : ℕ) (xs : List (Sleeper × Bool)) (s : Conditional)
    → Owes k s
    → IsMoved k resume s (wake_up xs s).1
unfolding wake_up enter_mutex leave_mutex
resume-IsMoved k [] s h = record { owes = (h.0, omega (arith, h.1)); moved = omega arith }
resume-IsMoved k (x ∷ xs) s h = by_lock x.0.locked
  where
    by_lock :
        (b : Bool)
        → IsMoved k resume s (unless_locked b (record (enter_mutex x.0.thread s) { ready = xs }))
    by_lock true = record { owes = (h.0, omega (arith, h.1)); moved = omega arith }
    by_lock false = record { owes = (h.0, omega (arith, h.1)); moved = omega arith }

pub step-IsMoved : (k : ℕ) (e : Move) (s : Conditional) → Owes k s → IsMoved k e s (step e s)
step-IsMoved k (post t pick) s h = post-IsMoved k t pick s h
step-IsMoved k (await t) s h = await-IsMoved k t s h
step-IsMoved k (spurious pick) s h = spurious-IsMoved k pick s h
step-IsMoved k resume s h = resume-IsMoved k s.ready s h
