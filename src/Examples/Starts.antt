-- ===== src/Examples/Starts.antt =====
-- The theorems on the start of the process at samples.
use web_socket_demo.Prelude.{
  ◌+◌, ◌≤◌, ◌≡◌, refl, arith, List, [], ◌∷◌, none, Bytes, if◌then◌else◌, leb,
}
use web_socket_demo.Text.{codes, equal, starts_with}
use web_socket_demo.Startup.{
  atoi_digits, atoi_sign, atoi, parse_workers, clamp, waits, killed, main,
}
use web_socket_demo.Startup.Workers.{forks, pids, main-children}

abbrev four : List Bytes
four = codes "--workers=4" ∷ []

four-workers : clamp (parse_workers four none) ≡ 4
unfolding parse_workers starts_with equal atoi atoi_sign atoi_digits
four-workers = refl

main-children_example :
    let workers = clamp (parse_workers four none) in
    (2 ≤ workers)
    × (workers ≤ 64)
    × (main four none (forks (λ i. 100 + i) 2) ≡ (
        if leb workers 2
        then waits (pids (λ i. 100 + i) 0 workers)
        else killed (pids (λ i. 100 + i) 0 2)))
main-children_example = main-children four none (λ i. 100 + i) 2 (omega (arith, four-workers))
