-- ===== src/Locks.antt =====
-- src/common/CriticalSection.h and src/common/CriticalSection.cpp: the recursive lock, and the class Conditional. A
-- thread is a number. What pthreads does with a mutex and a condition is written out; a condition may
-- also wake a thread that was not signalled (`stir`), as POSIX allows.
pub mod Moves
pub mod Semaphore
pub mod Deadline
pub mod Exclusive
use web_socket_demo.Prelude.{
  ℕ, zero, suc, ◌+◌, ◌-◌, ◌*◌, ◌/◌, ◌%◌, Bool, true, false, not, List, [], ◌∷◌, ◌++◌, Option, none,
  some, ◌==◌, if◌then◌else◌, map,
}
use web_socket_demo.Startup.{ℤ, pos, negsuc}

-- The mutex of CCriticalSection: the thread that has it and how often it has entered, one less.
pub record CriticalSection : Type 0 where
  pub owner : Option (ℕ × ℕ)

abbrev pub unlocked : CriticalSection
unlocked = record { owner = none }

-- None where the thread has to wait.
unfoldable pub enter : ℕ → CriticalSection → Option CriticalSection
enter t s = elim s.owner [
  | none ↦ some (record { owner = some (t, 0) })
  | some held ↦ if held.0 == t then some (record { owner = some (t, held.1 + 1) }) else none
]

abbrev pub one_less : ℕ → ℕ → Option (ℕ × ℕ)
one_less t zero = none
one_less t (suc n) = some (t, n)

-- A thread that has not the mutex gets an error that is not looked at.
unfoldable pub leave : ℕ → CriticalSection → CriticalSection
leave t s = elim s.owner [
  | none ↦ s
  | some held ↦ if held.0 == t then record { owner = one_less t held.1 } else s
]

-- CAutoLock: its constructor and its destructor.
abbrev pub auto_lock : ℕ → CriticalSection → Option CriticalSection
auto_lock t s = enter t s

abbrev pub auto_unlock : ℕ → CriticalSection → CriticalSection
auto_unlock t s = leave t s

-- A thread in pthread_cond_wait or pthread_cond_timedwait, and whether its caller has the mutex already.
pub record Sleeper : Type 0 where
  pub thread : ℕ
  pub is_timed : Bool
  pub locked : Bool

-- `data_count` is miDataCount, an int, as an integer. `ready` are the threads that are awake and wait for
-- the mutex, with whether their time was over.
pub record Conditional : Type 0 where
  pub mutex : Option ℕ
  pub data_count : ℤ
  pub sleepers : List Sleeper
  pub ready : List (Sleeper × Bool)

abbrev pub init : Conditional
init = record { mutex = none; data_count = pos 0; sleepers = []; ready = [] }

-- Of a mutex that is free.
unfoldable pub enter_mutex : ℕ → Conditional → Conditional
enter_mutex t s = record s { mutex = some t }

unfoldable pub leave_mutex : Conditional → Conditional
leave_mutex s = record s { mutex = none }

unfoldable pub try_enter_mutex : ℕ → Conditional → Bool × Conditional
try_enter_mutex t s = elim s.mutex [
  | none ↦ (true, record s { mutex = some t })
  | some u ↦ (false, s)
]

abbrev pub plus_one : ℤ → ℤ
plus_one (pos n) = pos (n + 1)
plus_one (negsuc zero) = pos 0
plus_one (negsuc (suc n)) = negsuc n

abbrev pub minus_one : ℤ → ℤ
minus_one (pos zero) = negsuc 0
minus_one (pos (suc n)) = pos n
minus_one (negsuc n) = negsuc (n + 1)

abbrev pub is_positive : ℤ → Bool
is_positive (pos zero) = false
is_positive (pos (suc n)) = true
is_positive (negsuc n) = false

-- The one that is taken out of a list that is not empty, at a place or at the end, and the rest.
abbrev pub taken : ℕ → Sleeper → List Sleeper → Sleeper × List Sleeper
taken zero x xs = (x, xs)
taken (suc k) x [] = (x, [])
taken (suc k) x (y ∷ ys) = let r = taken k y ys in (r.0, x ∷ r.1)

-- pthread_cond_signal wakes one thread, which the system picks.
unfoldable pub wake_one : ℕ → List Sleeper → Conditional → Conditional
wake_one pick [] s = s
wake_one pick (x ∷ xs) s =
    let r = taken pick x xs in record s { sleepers = r.1; ready = s.ready ++ (r.0, false) ∷ [] }

unfoldable pub wake_all : Conditional → Conditional
wake_all s = record s { sleepers = []; ready = s.ready ++ map (λ x. (x, false)) s.sleepers }

unfoldable pub signal : ℕ → Bool → ℕ → Conditional → Conditional
signal t broadcast pick s =
    let e = enter_mutex t s in
    let c = record e { data_count = plus_one e.data_count } in
    leave_mutex (if broadcast then wake_all c else wake_one pick c.sleepers c)

-- A wait on the condition gives the mutex away.
unfoldable pub sleep : Sleeper → Conditional → Conditional
sleep x s = record s { mutex = none; sleepers = s.sleepers ++ x ∷ [] }

-- The end of `wait`, with the mutex.
abbrev pub unless_locked : Bool → Conditional → Conditional
unless_locked true s = s
unless_locked false s = leave_mutex s

-- `wait` up to its return, or up to the wait on the condition; the result where it returns.
unfoldable pub wait : ℕ → ℕ → Bool → Conditional → Option Bool × Conditional
wait t zero locked s =
    let e = if locked then s else enter_mutex t s in
    let c = record e { data_count = minus_one e.data_count } in
    if is_positive e.data_count
    then (some true, unless_locked locked c)
    else (none, sleep (record { thread = t; is_timed = false; locked = locked }) c)
wait t (suc timeout) locked s =
    let e = if locked then s else enter_mutex t s in
    (none, sleep (record { thread = t; is_timed = true; locked = locked }) e)

-- The time of the sleeper at a place, if it has one, is over.
unfoldable pub expire : ℕ → List Sleeper → Conditional → Conditional
expire pick [] s = s
expire pick (x ∷ xs) s =
    let r = taken pick x xs in
    if r.0.is_timed then record s { sleepers = r.1; ready = s.ready ++ (r.0, true) ∷ [] } else s

-- pthread_cond_wait and pthread_cond_timedwait may return to a thread that was not signalled.
unfoldable pub stir : ℕ → List Sleeper → Conditional → Conditional
stir pick [] s = s
stir pick (x ∷ xs) s =
    let r = taken pick x xs in record s { sleepers = r.1; ready = s.ready ++ (r.0, false) ∷ [] }

-- A thread that is awake and gets the mutex returns, with false where its time was over.
unfoldable pub wake_up : List (Sleeper × Bool) → Conditional → Option Bool × Conditional
wake_up [] s = (none, s)
wake_up (x ∷ xs) s =
    (some (not x.1), unless_locked x.0.locked (record (enter_mutex x.0.thread s) { ready = xs }))

-- getTimeoutEx without PTHREAD_GET_EXPIRATION_NP: from the time of now, and a time in milliseconds.
unfoldable pub get_timeout_ex : ℕ → ℕ → ℕ → ℕ × ℕ
get_timeout_ex tv_sec tv_usec timer =
    (tv_sec + (timer + tv_usec / 1000) / 1000, (tv_usec / 1000 + timer) % 1000 * 1000000)
