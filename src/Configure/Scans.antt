-- ===== src/Configure/Scans.antt =====
-- The lengths of what the conversions of `iniparser_line` (src/common/Configure.cpp) give.
use web_socket_demo.Prelude.{
  ℕ, ◌+◌, ◌≡◌, ◌≤◌, arith, Bool, not, [], ◌∷◌, Option, none, some, Bytes, ◌==◌, if-elim, length,
}
use web_socket_demo.Configure.{
  no_equals, is_nil, skip_space, strstrip, span, scan_set, scan_char, scan_value, scan_quoted,
  scan_bare, or_else, assigned, unquote, ◌>>=◌,
}
use web_socket_demo.Configure.Bounds.{skip_space-length, strip_end-length}

pub strstrip-length : (s : Bytes) → length (strstrip s) ≤ length s
unfolding strstrip
strstrip-length s = omega (arith, strip_end-length (skip_space s), skip_space-length s)

span-length :
    (test : ℕ → Bool) (s : Bytes) → length (span test s).0 + length (span test s).1 ≡ length s
unfolding span
span-length test [] = omega arith
span-length test (c ∷ s) = ground (arith, span-length test s)

pub unquote-length : (v : Bytes) → length (unquote v) ≤ length v
unquote-length v = ground arith

-- Both texts of a result fit.
abbrev pub Fits : ℕ → Option (Bytes × Bytes) → Type 0
Fits n none = Unit
Fits n (some r) = (length r.0 ≤ n) × (length r.1 ≤ n)

abbrev FitsOne : ℕ → Option Bytes → Type 0
FitsOne n none = Unit
FitsOne n (some s) = length s ≤ n

pub scan_set-Fits : (test : ℕ → Bool) (n : ℕ) (s : Bytes) → length s ≤ n → Fits n (scan_set test s)
unfolding scan_set
scan_set-Fits test n s h =
    if-elim (Fits n) (is_nil (span test s).0) (λ _. tt)
      (λ _. (omega (arith, span-length test s), omega (arith, span-length test s)))

scan_char-Fits : (c n : ℕ) (s : Bytes) → length s ≤ n → FitsOne n (scan_char c s)
scan_char-Fits c n [] h = tt
scan_char-Fits c n (x ∷ s) h = if-elim (FitsOne n) (x == c) (λ _. omega arith) (λ _. tt)

bind-Fits :
    (n : ℕ) (o : Option (Bytes × Bytes)) (f : Bytes × Bytes → Option (Bytes × Bytes))
    → Fits n o
    → ((r : Bytes × Bytes) → length r.0 ≤ n → length r.1 ≤ n → Fits n (f r))
    → Fits n (o >>= f)
bind-Fits n none f h g = tt
bind-Fits n (some r) f h g = g r h.0 h.1

bind_one-Fits :
    (n : ℕ) (o : Option Bytes) (f : Bytes → Option (Bytes × Bytes))
    → FitsOne n o
    → ((s : Bytes) → length s ≤ n → Fits n (f s))
    → Fits n (o >>= f)
bind_one-Fits n none f h g = tt
bind_one-Fits n (some s) f h g = g s h

pub scan_value-Fits :
    (test : ℕ → Bool) (n : ℕ) (s : Bytes) → length s ≤ n → Fits n (scan_value test s)
unfolding scan_value
scan_value-Fits test n s h =
    bind-Fits n (scan_set no_equals s) _ (scan_set-Fits no_equals n s h) (λ k h0 h1.
      bind_one-Fits n (scan_char b'=' (skip_space k.1)) _
        (scan_char-Fits b'=' n (skip_space k.1) (omega (arith, skip_space-length k.1)))
        (λ t ht.
          bind-Fits n (scan_set test (skip_space t)) _
            (scan_set-Fits test n (skip_space t) (omega (arith, skip_space-length t)))
            (λ v hv0 hv1. (h0, hv0))))

pub scan_quoted-Fits : (quote n : ℕ) (s : Bytes) → length s ≤ n → Fits n (scan_quoted quote s)
unfolding scan_quoted
scan_quoted-Fits quote n s h =
    bind-Fits n (scan_set no_equals s) _ (scan_set-Fits no_equals n s h) (λ k h0 h1.
      bind_one-Fits n (scan_char b'=' (skip_space k.1)) _
        (scan_char-Fits b'=' n (skip_space k.1) (omega (arith, skip_space-length k.1)))
        (λ t ht.
          bind_one-Fits n (scan_char quote (skip_space t)) _
            (scan_char-Fits quote n (skip_space t) (omega (arith, skip_space-length t)))
            (λ u hu.
              bind-Fits n (scan_set (λ c. not (c == quote)) u) _ (scan_set-Fits _ n u hu)
                (λ v hv0 hv1. (h0, hv0)))))

pub scan_bare-Fits : (n : ℕ) (s : Bytes) → length s ≤ n → Fits n (scan_bare s)
unfolding scan_bare
scan_bare-Fits n s h =
    bind-Fits n (scan_set no_equals s) _ (scan_set-Fits no_equals n s h) (λ k h0 h1.
      bind-Fits n (scan_set (λ c. c == b'=') (skip_space k.1)) _
        (scan_set-Fits _ n (skip_space k.1) (omega (arith, skip_space-length k.1)))
        (λ v hv0 hv1. (h0, hv0)))

pub or_else-Fits :
    (n : ℕ) (o p : Option (Bytes × Bytes)) → Fits n o → Fits n p → Fits n (or_else o p)
or_else-Fits n none p ho hp = hp
or_else-Fits n (some r) p ho hp = ho

pub assigned-length :
    (n : ℕ) (o : Option (Bytes × Bytes)) (old : Bytes)
    → Fits n o
    → length old ≤ n
    → length (assigned o old) ≤ n
assigned-length n none old ho h = h
assigned-length n (some r) old ho h = ho.0
