-- ===== src/Startup/Arguments.antt =====
-- On `parse_workers` (src/websocket_master/main.cpp): how the number of workers is read.
use native.Mathlib.Nat.{pow-suc}
use web_socket_demo.Prelude.{
  ℕ, ◌+◌, ◌-◌, ◌*◌, ◌^◌, ◌<◌, ◌≡◌, refl, ap, sym, ◌∙◌, arith, true, false, append-nil, List, [],
  ◌∷◌, ◌++◌, Option, none, some, Bytes, All, length,
}
use web_socket_demo.Text.{codes, equal, starts_with}
use web_socket_demo.Startup.{pos, atoi_digits, atoi_sign, atoi, parse_workers}

-- Decimal text: the digits, most significant first, and their value.
abbrev pub AreDigits : Bytes → Type 0
AreDigits = All (λ d. d < 10)

abbrev pub decimal : Bytes → Bytes
decimal [] = []
decimal (d ∷ ds) = (b'0' + d) ∷ decimal ds

abbrev pub value : Bytes → ℕ
value [] = 0
value (d ∷ ds) = d * 10 ^ length ds + value ds

pub atoi_digits-decimal :
    (acc : ℕ) (ds : Bytes)
    → AreDigits ds
    → atoi_digits acc (decimal ds) ≡ acc * 10 ^ length ds + value ds
unfolding atoi_digits
atoi_digits-decimal acc [] h = omega arith
atoi_digits-decimal acc (d ∷ ds) h =
    ground (arith, grows)
    ∙ atoi_digits-decimal (acc * 10 + d) ds h.1
    ∙ omega (arith, weigh (10 ^ length ds) (10 ^ length (d ∷ ds)) (pow-suc 10 (length ds)))
  where
    grows : 48 + d - 48 ≡ d
    grows = omega arith

    weigh : (p q : ℕ) → q ≡ p * 10 → (acc * 10 + d) * p ≡ acc * q + d * p
    weigh p q e = rw e (omega arith)

pub atoi-decimal : (ds : Bytes) → AreDigits ds → atoi (decimal ds) ≡ pos (value ds)
unfolding atoi atoi_sign
atoi-decimal [] h = refl
atoi-decimal (d ∷ ds) h = ground (arith, atoi_digits-decimal 0 (d ∷ ds) h)

-- An argument that is not about the workers.
abbrev pub IsOther : Bytes → Type 0
IsOther arg =
    (starts_with (codes "--workers=") arg ≡ false) × (equal arg (codes "--workers") ≡ false)

parse_workers-skip :
    (before args : List Bytes) (env : Option Bytes)
    → All IsOther before
    → parse_workers (before ++ args) env ≡ parse_workers args env
unfolding parse_workers
parse_workers-skip [] args env h = refl
parse_workers-skip (arg ∷ before) args env h =
    ground (arith, h.0.0, h.0.1, parse_workers-skip before args env h.1)

starts_with-append : (p s : Bytes) → starts_with p (p ++ s) ≡ true
unfolding starts_with
starts_with-append [] s = refl
starts_with-append (c ∷ p) s = ground (arith, starts_with-append p s)

-- Behind arguments that are not about the workers, `--workers=N` and `--workers N` both ask for the
-- number that N is the decimal text of, whatever stands behind them and in the environment. With
-- no such argument the environment's N counts, and without that the number is 1.
parse_workers-decimal :
    (before rest : List Bytes) (env : Option Bytes) (ds : Bytes)
    → All IsOther before
    → AreDigits ds
    → (parse_workers (before ++ (codes "--workers=" ++ decimal ds) ∷ rest) env ≡ pos (value ds))
      × (parse_workers (before ++ codes "--workers" ∷ decimal ds ∷ rest) env ≡ pos (value ds))
      × (parse_workers before (some (decimal ds)) ≡ pos (value ds))
      × (parse_workers before none ≡ pos 1)
parse_workers-decimal before rest env ds h d = (
  parse_workers-skip before _ env h ∙ joined,
  parse_workers-skip before _ env h ∙ apart,
  ap (λ t. parse_workers t (some (decimal ds))) (sym (append-nil before))
      ∙ parse_workers-skip before [] (some (decimal ds)) h
      ∙ (unfold parse_workers in atoi-decimal ds d),
  ap (λ t. parse_workers t none) (sym (append-nil before))
      ∙ parse_workers-skip before [] none h
      ∙ (unfold parse_workers in refl),
)
  where
    joined : parse_workers ((codes "--workers=" ++ decimal ds) ∷ rest) env ≡ pos (value ds)
    joined =
        unfold parse_workers in
        ground (arith, starts_with-append (codes "--workers=") (decimal ds), atoi-decimal ds d)

    apart : parse_workers (codes "--workers" ∷ decimal ds ∷ rest) env ≡ pos (value ds)
    apart = unfold parse_workers starts_with equal in atoi-decimal ds d
