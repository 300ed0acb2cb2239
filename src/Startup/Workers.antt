-- ===== src/Startup/Workers.antt =====
-- On `main` (src/websocket_master/main.cpp): how many processes serve, and what becomes of them.
use web_socket_demo.Prelude.{
  ℕ, zero, suc, ◌+◌, ◌≤◌, ◌<◌, ◌≡◌, ◌≢◌, ap, ◌∙◌, sym, arith, List, [], ◌∷◌, ◌++◌, Option, Bytes,
  append_assoc, append-nil, ◌==◌, if◌then◌else◌, ltb, leb, Bool-cases, inl, inr,
}
use web_socket_demo.Startup.{
  ℤ, pos, negsuc, parse_workers, clamp, Fork, failed, parent, serves, waits, killed, fork_loop,
  main,
}

-- The children of the calls from `i` on.
abbrev pub pids : (ℕ → ℕ) → ℕ → ℕ → List ℕ
pids pid i zero = []
pids pid i (suc k) = pid i ∷ pids pid (i + 1) k

clamp-range : (z : ℤ) → (1 ≤ clamp z) × (clamp z ≤ 64)
clamp-range (negsuc n) = (omega arith, omega arith)
clamp-range (pos n) = (ground arith, ground arith)

module _ (fork : ℕ → Fork) (pid : ℕ → ℕ) where
  fork_loop-waits :
      (k i : ℕ) (kids : List ℕ)
      → ((j : ℕ) → i ≤ j → j < i + k → fork j ≡ parent (pid j))
      → fork_loop k i fork kids ≡ waits (kids ++ pids pid i k)
  unfolding fork_loop
  fork_loop-waits zero i kids all = ap waits (sym (append-nil kids))
  fork_loop-waits (suc k) i kids all = rw (all i (omega arith) (omega arith)) (
      fork_loop-waits k (i + 1) (kids ++ pid i ∷ []) (λ j l u. all j (omega arith) (omega arith))
      ∙ ap waits (append_assoc kids (pid i ∷ []) (pids pid (i + 1) k)))

  fork_loop-killed :
      (j left i : ℕ) (kids : List ℕ)
      → j < left
      → ((m : ℕ) → i ≤ m → m < i + j → fork m ≡ parent (pid m))
      → fork (i + j) ≡ failed
      → fork_loop left i fork kids ≡ killed (kids ++ pids pid i j)
  unfolding fork_loop
  fork_loop-killed j zero i kids l all bad = absurd (omega arith)
  fork_loop-killed zero (suc left) i kids l all bad =
      let bad' : fork i ≡ failed = ap fork (omega arith) ∙ bad in
      rw bad' (ap killed (sym (append-nil kids)))
  fork_loop-killed (suc j) (suc left) i kids l all bad = rw (all i (omega arith) (omega arith)) (
      fork_loop-killed j left (i + 1) (kids ++ pid i ∷ []) (omega arith)
        (λ m a b. all m (omega arith) (omega arith)) (ap fork (omega arith) ∙ bad)
      ∙ ap killed (append_assoc kids (pid i ∷ []) (pids pid (i + 1) j)))

-- The answers of fork where the first `made` calls succeed and the others fail.
abbrev pub forks : (ℕ → ℕ) → ℕ → ℕ → Fork
forks pid made j = if ltb j made then parent (pid j) else failed

-- Unless one process is to serve alone, the parent has 2 to 64 children if all its forks succeed, as
-- many as were asked for after the clamp, and waits for them; if a fork fails, it kills exactly the
-- children that were made before.
pub main-children :
    (args : List Bytes) (env : Option Bytes) (pid : ℕ → ℕ) (made : ℕ)
    → clamp (parse_workers args env) ≢ 1
    → let workers = clamp (parse_workers args env) in
      (2 ≤ workers)
      × (workers ≤ 64)
      × (main args env (forks pid made)
          ≡ (if leb workers made then waits (pids pid 0 workers) else killed (pids pid 0 made)))
unfolding main
main-children args env pid made many =
    let range = clamp-range (parse_workers args env) in
    (omega (arith, range.0), range.1, started (clamp (parse_workers args env)) many)
  where
    started :
        (workers : ℕ)
        → workers ≢ 1
        → (if workers == 1 then serves else fork_loop workers 0 (forks pid made) [])
          ≡ (if leb workers made then waits (pids pid 0 workers) else killed (pids pid 0 made))
    started workers ne = elim (Bool-cases (leb workers made)) [
      | inl e ↦
          ground (
            arith,
            e,
            fork_loop-waits (forks pid made) pid workers 0 [] (λ j l u. ground (arith, e)),
          )
      | inr e ↦ ground (
        arith,
        e,
        fork_loop-killed (forks pid made) pid made workers 0 [] (ground (arith, e))
            (λ j l u. ground arith) (ground arith),
      )
    ]
