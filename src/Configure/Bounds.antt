-- ===== src/Configure/Bounds.antt =====
-- The loops of src/common/Configure.cpp: their ends, and what their buffers hold.
use web_socket_demo.Prelude.{
  ℕ, zero, suc, ◌+◌, ◌-◌, ◌≡◌, ◌≤◌, ◌<◌, refl, arith, true, not, ◌&&◌, [], ◌∷◌, ◌++◌, Option, none,
  some, Bytes, if◌then◌else◌, if-elim, length, length-append,
}
use web_socket_demo.Text.{equal}
use web_socket_demo.Configure.{
  LineStatus, line_unprocessed, line_error, line_empty, line_comment, line_section, line_value,
  is_nil, is_last, skip_space, strip_end, Parsed, iniparser_line,
}
use web_socket_demo.Configure.Reading.{
  asciilinesz, fgets, Next, at_end, no_newline, continued, complete, init_of, take_line, next_line,
  Rest, Loaded, load_parsed, load_round, load_loop, load, find_parsed, find_round, find_loop,
  get_str_param, cleared,
}

fgets-length :
    (n : ℕ) (file : Bytes)
    → (length (fgets n file).0 + length (fgets n file).1 ≡ length file)
      × (length (fgets n file).0 ≤ n)
unfolding fgets
fgets-length zero file = (omega arith, omega arith)
fgets-length (suc n) [] = (omega arith, omega arith)
fgets-length (suc n) (c ∷ file) = ground (arith, fgets-length n file)

pub skip_space-length : (s : Bytes) → length (skip_space s) ≤ length s
unfolding skip_space
skip_space-length [] = omega arith
skip_space-length (c ∷ s) = ground (arith, skip_space-length s)

pub strip_end-length : (s : Bytes) → length (strip_end s) ≤ length s
unfolding strip_end
strip_end-length [] = omega arith
strip_end-length (c ∷ s) = ground (arith, strip_end-length s)

init_of-length : (s : Bytes) → length (init_of s) ≤ length s - 1
init_of-length [] = omega arith
init_of-length (c ∷ []) = omega arith
init_of-length (c ∷ d ∷ s) = omega (arith, init_of-length (d ∷ s))

-- A line has its newline, and so fewer characters than the buffer once it is stripped.
strip_end-newline : (s : Bytes) → is_last b'\n' s ≡ true → suc (length (strip_end s)) ≤ length s
unfolding strip_end
strip_end-newline [] h = absurd cc
strip_end-newline (c ∷ []) h = ground arith
strip_end-newline (c ∷ d ∷ s) h = ground (arith, strip_end-newline (d ∷ s) h)

-- What is left of a file of `n` characters is shorter, and the buffer has room: `last` is 1021 at
-- most, so that fgets is asked for two characters at least.
abbrev pub IsFit : ℕ → Next → Type 0
IsFit n at_end = Unit
IsFit n no_newline = Unit
IsFit n (continued kept rest) = (length rest < n) × (length kept ≤ 1021)
IsFit n (complete line rest) = (length rest < n) × (length line ≤ 1022)

take_line-IsFit :
    (line rest : Bytes) (n : ℕ)
    → length rest < n
    → length line ≤ 1023
    → IsFit n (take_line line rest)
unfolding take_line
take_line-IsFit line rest n h le =
    if-elim (IsFit n) (not (is_last b'\n' line)) (λ _. tt)
      (λ e.
        let short : suc (length (strip_end line)) ≤ length line =
          strip_end-newline line (ground (arith, e)) in
        if-elim (IsFit n) (is_last b'\\' (strip_end line))
          (λ _. (h, omega (arith, init_of-length (strip_end line), short)))
          (λ _. (h, omega (arith, short))))

pub next_line-IsFit :
    (kept file : Bytes) → length kept ≤ 1021 → IsFit (length file) (next_line kept file)
unfolding next_line
next_line-IsFit kept file le =
    taken (fgets (asciilinesz - length kept - 1) file).0
      (fgets (asciilinesz - length kept - 1) file).1
      (fgets-length (asciilinesz - length kept - 1) file)
  where
    taken :
        (line rest : Bytes)
        → ((length line + length rest ≡ length file)
            × (length line ≤ asciilinesz - length kept - 1))
        → IsFit (length file) (if is_nil line then at_end else take_line (kept ++ line) rest)
    taken [] rest h = tt
    taken (c ∷ line) rest h =
        take_line-IsFit (kept ++ (c ∷ line)) rest (length file) (omega (arith, h.0))
          (omega (arith, h.1, length-append kept (c ∷ line)))

abbrev pub Ends {ℓ} : {R : Type ℓ} → Option R → Type ℓ
Ends {R} o = (r : R) × (o ≡ some r)

-- A line of any kind leaves the end of the loop to the rest, and calls parse_value or not before.
load_parsed-Ends :
    (s : LineStatus) (p : Parsed) (o : Option Loaded) → Ends o → Ends (load_parsed s p o)
load_parsed-Ends line_unprocessed p o h = h
load_parsed-Ends line_error p o h = h
load_parsed-Ends line_empty p o h = h
load_parsed-Ends line_comment p o h = h
load_parsed-Ends line_section p o h = h
load_parsed-Ends line_value p o h = rw h.1 (_, refl)

load_round-Ends :
    (rest : Rest Loaded) (n : ℕ) (next : Next) (b : Parsed)
    → ((kept file : Bytes) (p : Parsed)
        → length kept ≤ 1021
        → length file < n
        → Ends (rest kept file p))
    → IsFit n next
    → Ends (load_round rest next b)
unfolding load_round
load_round-Ends rest n at_end b h fit = (_, refl)
load_round-Ends rest n no_newline b h fit = (_, refl)
load_round-Ends rest n (continued kept file) b h fit = h kept file b fit.1 fit.0
load_round-Ends rest n (complete line file) b h fit =
    let p = iniparser_line line b.section b.key b.value in
    load_parsed-Ends p.status p (rest [] file p) (h [] file p (omega arith) fit.0)

load_loop-Ends :
    (fuel : ℕ) (kept file : Bytes) (b : Parsed)
    → length kept ≤ 1021
    → length file < fuel
    → Ends (load_loop fuel kept file b)
unfolding load_loop
load_loop-Ends zero kept file b le lt = absurd (omega arith)
load_loop-Ends (suc fuel) kept file b le lt =
    load_round-Ends (load_loop fuel) (length file) (next_line kept file) b
      (λ k f p l h. load_loop-Ends fuel k f p l (omega (arith, h))) (next_line-IsFit kept file le)

find_parsed-Ends :
    (key section : Bytes) (s : LineStatus) (p : Parsed) (o : Option Bytes)
    → Ends o
    → Ends (find_parsed key section s p o)
unfolding find_parsed
find_parsed-Ends key section line_value p o h =
    if-elim Ends (equal key p.key && equal section p.section) (λ _. (_, refl)) (λ _. h)
find_parsed-Ends key section line_unprocessed p o h = h
find_parsed-Ends key section line_error p o h = h
find_parsed-Ends key section line_empty p o h = h
find_parsed-Ends key section line_comment p o h = h
find_parsed-Ends key section line_section p o h = h

find_round-Ends :
    (key section : Bytes) (rest : Rest Bytes) (n : ℕ) (next : Next) (b : Parsed)
    → ((kept file : Bytes) (p : Parsed)
        → length kept ≤ 1021
        → length file < n
        → Ends (rest kept file p))
    → IsFit n next
    → Ends (find_round key section rest next b)
unfolding find_round
find_round-Ends key section rest n at_end b h fit = (_, refl)
find_round-Ends key section rest n no_newline b h fit = (_, refl)
find_round-Ends key section rest n (continued kept file) b h fit = h kept file b fit.1 fit.0
find_round-Ends key section rest n (complete line file) b h fit =
    let p = iniparser_line line b.section b.key b.value in
    find_parsed-Ends key section p.status p (rest [] file p) (h [] file p (omega arith) fit.0)

find_loop-Ends :
    (key section : Bytes) (fuel : ℕ) (kept file : Bytes) (b : Parsed)
    → length kept ≤ 1021
    → length file < fuel
    → Ends (find_loop key section fuel kept file b)
unfolding find_loop
find_loop-Ends key section zero kept file b le lt = absurd (omega arith)
find_loop-Ends key section (suc fuel) kept file b le lt =
    find_round-Ends key section (find_loop key section fuel) (length file) (next_line kept file) b
      (λ k f p l h. find_loop-Ends key section fuel k f p l (omega (arith, h)))
      (next_line-IsFit kept file le)

-- On every file, also one that cannot be opened, `load` and `GetStrParam` end with a result: each
-- round of their loops takes a character of the file at least.
pub load-Ends :
    (key section : Bytes) (file : Option Bytes)
    → Ends (load file) × Ends (get_str_param key section file)
unfolding load get_str_param
load-Ends key section none = ((_, refl), (_, refl))
load-Ends key section (some file) = (
  load_loop-Ends (suc (length file)) [] file cleared (omega arith) (omega arith),
  find_loop-Ends key section (suc (length file)) [] file cleared (omega arith) (omega arith),
)
