-- ===== src/Configure/Text.antt =====
-- What strstrip, fgets and the sscanf sets of src/common/Configure.cpp do with a text.
use web_socket_demo.Prelude.{
  ℕ, zero, suc, ◌≡◌, ◌≢◌, ◌≤◌, ◌<◌, refl, arith, Bool, true, false, [], ◌∷◌, ◌++◌, some, Bytes,
  ◌==◌, length, All,
}
use web_socket_demo.Startup.{is_space}
use web_socket_demo.Configure.{is_nil, is_last, skip_space, strip_end, strstrip, span, scan_set}
use web_socket_demo.Configure.Reading.{fgets, take_line, next_line, complete}

pub is_nil-snoc : (x : ℕ) (s : Bytes) → is_nil (s ++ x ∷ []) ≡ false
is_nil-snoc x [] = refl
is_nil-snoc x (c ∷ s) = refl

pub is_last-snoc : (c x : ℕ) (s : Bytes) → is_last c (s ++ x ∷ []) ≡ (x == c)
is_last-snoc c x [] = refl
is_last-snoc c x (y ∷ []) = refl
is_last-snoc c x (y ∷ z ∷ s) = is_last-snoc c x (z ∷ s)

pub strip_end-space :
    (s : Bytes) (x : ℕ) → is_space x ≡ true → strip_end (s ++ x ∷ []) ≡ strip_end s
unfolding strip_end
strip_end-space [] x h = ground arith
strip_end-space (c ∷ s) x h = rw (strip_end-space s x h) refl

pub strip_end-snoc :
    (s : Bytes) (x : ℕ) → is_space x ≡ false → strip_end (s ++ x ∷ []) ≡ s ++ x ∷ []
unfolding strip_end
strip_end-snoc [] x h = ground arith
strip_end-snoc (c ∷ []) x h = ground (arith, strip_end-snoc [] x h)
strip_end-snoc (c ∷ d ∷ s) x h = ground (arith, strip_end-snoc (d ∷ s) x h)

pub strstrip-space : (s : Bytes) (x : ℕ) → is_space x ≡ true → strstrip (s ++ x ∷ []) ≡ strstrip s
unfolding strstrip skip_space
strstrip-space [] x h = ground arith
strstrip-space (c ∷ s) x h = ground (arith, strstrip-space s x h, strip_end-space (c ∷ s) x h)

pub span-front :
    (test : ℕ → Bool) (l : Bytes) (d : ℕ) (s : Bytes)
    → All (λ c. test c ≡ true) l
    → test d ≡ false
    → span test (l ++ (d ∷ s)) ≡ (l, d ∷ s)
unfolding span
span-front test [] d s h e = rw e refl
span-front test (c ∷ l) d s h e = rw (h.0, span-front test l d s h.1 e) refl

pub scan_set-front :
    (test : ℕ → Bool) (c : ℕ) (l : Bytes) (d : ℕ) (s : Bytes)
    → All (λ x. test x ≡ true) (c ∷ l)
    → test d ≡ false
    → scan_set test ((c ∷ l) ++ (d ∷ s)) ≡ some (c ∷ l, d ∷ s)
unfolding scan_set
scan_set-front test c l d s h e = rw (span-front test (c ∷ l) d s h e) refl

pub fgets-line :
    (n : ℕ) (l rest : Bytes)
    → All (λ c. c ≢ b'\n') l
    → length l < n
    → fgets n (l ++ (b'\n' ∷ rest)) ≡ (l ++ b'\n' ∷ [], rest)
unfolding fgets
fgets-line zero l rest h lt = absurd (omega arith)
fgets-line (suc n) [] rest h lt = refl
fgets-line (suc n) (c ∷ l) rest h lt = ground (arith, fgets-line n l rest h.1)

-- A line of the file that does not end with a backslash, and is not too long, arrives whole.
pub next_line-complete :
    (l rest : Bytes)
    → All (λ c. c ≢ b'\n') l
    → length l ≤ 1022
    → is_last b'\\' (strip_end l) ≡ false
    → next_line [] (l ++ (b'\n' ∷ rest)) ≡ complete (strip_end l) rest
unfolding next_line take_line
next_line-complete l rest h lt last =
    rw
      (
        fgets-line 1023 l rest h (omega arith),
        is_nil-snoc b'\n' l,
        is_last-snoc b'\n' b'\n' l,
        strip_end-space l b'\n' refl,
        last,
      )
      refl
