-- ===== src/Locks/Exclusive.antt =====
-- The class CAutoLock of src/common/CriticalSection.cpp: threads that hold the mutex for the time of its objects.
use web_socket_demo.Prelude.{
  ℕ, zero, suc, ◌+◌, ◌-◌, ◌<◌, ◌≡◌, ◌≢◌, ◌↔◌, refl, arith, Option, none, some, ◌==◌, if◌then◌else◌,
  Bool-cases, inl, inr,
}
use web_socket_demo.Locks.{CriticalSection, unlocked, enter, leave, auto_lock, auto_unlock}

-- The mutex, and how many CAutoLocks each thread has alive.
pub record Threads : Type 0 where
  pub lock : CriticalSection
  pub alive : ℕ → ℕ

abbrev pub at_thread : ℕ → ℕ → (ℕ → ℕ) → ℕ → ℕ
at_thread t k f u = if u == t then k else f u

-- A thread makes a CAutoLock where the mutex lets it, or destroys one that it has.
pub data Step : Threads → Threads → Type 0 where
  makes :
      {s : Threads} (t : ℕ) (c : CriticalSection)
      → auto_lock t s.lock ≡ some c
      → Step s (record { lock = c; alive = at_thread t (s.alive t + 1) s.alive })
  destroys :
      {s : Threads} (t : ℕ)
      → 0 < s.alive t
      → Step s (record { lock = auto_unlock t s.lock; alive = at_thread t (s.alive t - 1) s.alive })

pub data Reach : Threads → Type 0 where
  start : Reach (record { lock = unlocked; alive = λ _. 0 })
  next : {s u : Threads} → Reach s → Step s u → Reach u

-- The owner has one CAutoLock more than the count says, and nobody else has any.
abbrev Counts : Option (ℕ × ℕ) → (ℕ → ℕ) → Type 0
Counts none alive = (t : ℕ) → alive t ≡ 0
Counts (some held) alive = (u : ℕ) → alive u ≡ (if u == held.0 then held.1 + 1 else 0)

abbrev Inv : Threads → Type 0
Inv s = Counts s.lock.owner s.alive

makes-Inv :
    (t : ℕ) (o : Option (ℕ × ℕ)) (c : CriticalSection) (alive : ℕ → ℕ)
    → enter t (record { owner = o }) ≡ some c
    → Counts o alive
    → Counts c.owner (at_thread t (alive t + 1) alive)
unfolding enter
makes-Inv t none c alive e i =
    let now : c.owner ≡ some (t, 0) = ground arith in rw now (λ u. ground (arith, i u, i t))
makes-Inv t (some held) c alive e i = elim (Bool-cases (held.0 == t)) [
  | inl mine ↦
      let now : c.owner ≡ some (t, held.1 + 1) = ground (arith, mine) in
      rw now (λ u. ground (arith, i u, i t, mine))
  | inr other ↦ absurd (ground (arith, other))
]

destroys-Inv :
    (t : ℕ) (o : Option (ℕ × ℕ)) (alive : ℕ → ℕ)
    → 0 < alive t
    → Counts o alive
    → Counts (leave t (record { owner = o })).owner (at_thread t (alive t - 1) alive)
unfolding leave
destroys-Inv t none alive p i = absurd (omega (arith, i t))
destroys-Inv t (some (v, zero)) alive p i = elim (Bool-cases (v == t)) [
  | inl mine ↦ rw mine (λ u. ground (arith, i u, i t, mine))
  | inr other ↦ absurd (ground (arith, i t, other))
]
destroys-Inv t (some (v, suc k)) alive p i = elim (Bool-cases (v == t)) [
  | inl mine ↦ rw mine (λ u. ground (arith, i u, i t, mine))
  | inr other ↦ absurd (ground (arith, i t, other))
]

Reach-Inv : {s : Threads} → Reach s → Inv s
Reach-Inv start = λ t. refl
Reach-Inv (next {s} r (makes t c e)) = makes-Inv t s.lock.owner c s.alive e (Reach-Inv r)
Reach-Inv (next {s} r (destroys t p)) = destroys-Inv t s.lock.owner s.alive p (Reach-Inv r)

-- What a lock is for.
pub record IsExclusive (s : Threads) : Type 0 where
  pub one_inside : (t u : ℕ) → 0 < s.alive t → 0 < s.alive u → t ≡ u
  pub lets_in : (t : ℕ) → (auto_lock t s.lock ≢ none) ↔ ((u : ℕ) → u ≢ t → s.alive u ≡ 0)

exclusive :
    (o : Option (ℕ × ℕ)) (alive : ℕ → ℕ)
    → Counts o alive
    → IsExclusive (record { lock = record { owner = o }; alive = alive })
unfolding enter
exclusive none alive i = record {
  one_inside = λ t u p q. absurd (omega (arith, i t));
  lets_in = λ t. (λ e u ne. i u, λ e. cc);
}
exclusive (some held) alive i = record {
  one_inside = λ t u p q. ground (arith, i t, i u);
  lets_in = λ t. (λ e u ne. ground (arith, i u), λ e. ground (arith, i held.0, e held.0));
}

-- However the threads of a process make and destroy CAutoLocks of one mutex, nested ones included:
-- never are two threads inside at once, and a thread gets in exactly if no other is inside; so one that is
-- inside gets in again, and after the last of its objects is gone each of the others does.
pub Reach-IsExclusive : (s : Threads) → Reach s → IsExclusive s
Reach-IsExclusive s r = exclusive s.lock.owner s.alive (Reach-Inv r)
