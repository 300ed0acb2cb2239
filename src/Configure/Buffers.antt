-- ===== src/Configure/Buffers.antt =====
-- The buffers that `iniparser_line` (src/common/Configure.cpp) fills, of 1025 characters each.
use web_socket_demo.Prelude.{
  ℕ, ◌≤◌, arith, not, ◌&&◌, List, [], ◌∷◌, All, Option, none, some, Bytes, ◌==◌, if-elim, length,
  drop,
}
use web_socket_demo.Configure.{
  no_equals, no_comment, is_comment, is_nil, is_first, is_last, strstrip, scan_set, scan_value,
  scan_quoted, scan_bare, assigned, special_line, value_line, section_name, Parsed, iniparser_line,
}
use web_socket_demo.Configure.Reading.{Next, at_end, no_newline, continued, complete, next_line}
use web_socket_demo.Configure.Bounds.{IsFit, next_line-IsFit}
use web_socket_demo.Configure.Scans.{
  strstrip-length, unquote-length, Fits, scan_set-Fits, scan_value-Fits, scan_quoted-Fits,
  scan_bare-Fits, or_else-Fits, assigned-length,
}

-- The three buffers hold `n` characters at most.
abbrev pub Holds : ℕ → Parsed → Type 0
Holds n p = (length p.section ≤ n) × (length p.key ≤ n) × (length p.value ≤ n)

-- What the conversions of `iniparser_line` give on a line that strstrip has left as `line`,
-- whichever of them are tried: the two texts, or for a single "%[...]" its text and the rest. One
-- that fails behind "%[^=]" has written what `scan_set no_equals` gives.
abbrev pub conversions : Bytes → List (Option (Bytes × Bytes))
conversions line =
    scan_set (λ c. not (c == b']')) (drop 1 line)
    ∷ scan_set no_equals line
    ∷ scan_quoted b'"' line
    ∷ scan_quoted b'\'' line
    ∷ scan_value no_comment line
    ∷ scan_value is_comment line
    ∷ scan_bare line
    ∷ []

-- Both texts fit, and what strcpy copies back after strstrip does.
abbrev pub Fill : ℕ → Option (Bytes × Bytes) → Type 0
Fill n none = Unit
Fill n (some r) =
    (length r.0 ≤ n) × (length r.1 ≤ n) × (length (strstrip r.0) ≤ n) × (length (strstrip r.1) ≤ n)

-- The bounds of a round, by what it makes of the line.
abbrev pub Within : Parsed → Next → Type 0
Within b at_end = Unit
Within b no_newline = Unit
Within b (continued kept rest) = length kept ≤ 1021
Within b (complete line rest) =
    (length line ≤ 1022)
    × (length (strstrip line) ≤ 1022)
    × All (Fill 1022) (conversions (strstrip line))
    × Holds 1022 (iniparser_line line b.section b.key b.value)

special_line-Holds :
    (n : ℕ) (line section key value : Bytes) (o : Option (Bytes × Bytes))
    → length line ≤ n
    → (length section ≤ n) × (length key ≤ n) × (length value ≤ n)
    → Fits n o
    → Holds n (special_line line section key value o)
unfolding special_line
special_line-Holds n line section key value none hl h ho = (
  h.0,
  assigned-length n (scan_set no_equals line) key (scan_set-Fits no_equals n line hl) h.1,
  h.2,
)
special_line-Holds n line section key value (some kv) hl h ho =
    (h.0, omega (arith, strstrip-length kv.0, ho.0), omega arith)

value_line-Holds :
    (n : ℕ) (line section key value : Bytes) (o : Option (Bytes × Bytes))
    → length line ≤ n
    → (length section ≤ n) × (length key ≤ n) × (length value ≤ n)
    → Fits n o
    → Holds n (value_line line section key value o)
unfolding value_line
value_line-Holds n line section key value none hl h ho =
    special_line-Holds n line section key value _ hl h
      (or_else-Fits n _ _ (scan_value-Fits is_comment n line hl) (scan_bare-Fits n line hl))
value_line-Holds n line section key value (some kv) hl h ho = (
  h.0,
  omega (arith, strstrip-length kv.0, ho.0),
  omega (arith, unquote-length (strstrip kv.1), strstrip-length kv.1, ho.1),
)

length-drop_one : (n : ℕ) (s : Bytes) → length s ≤ n → length (drop 1 s) ≤ n
length-drop_one n [] h = h
length-drop_one n (c ∷ s) h = omega arith

section_name-length :
    (n : ℕ) (line section : Bytes)
    → length line ≤ n
    → length section ≤ n
    → length (section_name line section) ≤ n
unfolding section_name
section_name-length n line section hl h =
    let name : Option (Bytes × Bytes) = scan_set (λ c. not (c == b']')) (drop 1 line) in
    let fit : length (assigned name section) ≤ n =
      assigned-length n name section (scan_set-Fits _ n (drop 1 line) (length-drop_one n line hl))
        h in
    omega (arith, fit, strstrip-length (assigned name section))

iniparser_line-Holds :
    (n : ℕ) (input section key value : Bytes)
    → length input ≤ n
    → (length section ≤ n) × (length key ≤ n) × (length value ≤ n)
    → Holds n (iniparser_line input section key value)
unfolding iniparser_line
iniparser_line-Holds n input section key value hi h =
    let line : Bytes = strstrip input in
    let hl : length line ≤ n = omega (arith, strstrip-length input) in
    if-elim (Holds n) (is_nil line) (λ _. h)
      (λ _.
        if-elim (Holds n) (is_first b'#' line) (λ _. h)
          (λ _.
            if-elim (Holds n) (is_first b'[' line && is_last b']' line)
              (λ _. (section_name-length n line section hl h.0, h.1, h.2))
              (λ _. value_line-Holds n line section key value _ hl h (
                or_else-Fits n _ _ (scan_quoted-Fits b'"' n line hl) (
                  or_else-Fits n _ _ (scan_quoted-Fits b'\'' n line hl)
                    (scan_value-Fits no_comment n line hl))))))

Fits-Fill : (n : ℕ) (o : Option (Bytes × Bytes)) → Fits n o → Fill n o
Fits-Fill n none h = tt
Fits-Fill n (some r) h =
    (h.0, h.1, omega (arith, strstrip-length r.0, h.0), omega (arith, strstrip-length r.1, h.1))

conversions-Fill : (n : ℕ) (line : Bytes) → length line ≤ n → All (Fill n) (conversions line)
conversions-Fill n line h = (
  Fits-Fill n _ (scan_set-Fits (λ c. not (c == b']')) n (drop 1 line) (length-drop_one n line h)),
  (
    Fits-Fill n _ (scan_set-Fits no_equals n line h),
    (
      Fits-Fill n _ (scan_quoted-Fits b'"' n line h),
      (
        Fits-Fill n _ (scan_quoted-Fits b'\'' n line h),
        (
          Fits-Fill n _ (scan_value-Fits no_comment n line h),
          (
            Fits-Fill n _ (scan_value-Fits is_comment n line h),
            (Fits-Fill n _ (scan_bare-Fits n line h), tt),
          ),
        ),
      ),
    ),
  ),
)

-- A round of the loops that has 1021 characters of a continued line at most, and 1022 at most in
-- the section, the key and the value: where the line goes on, 1021 characters are kept at most, and
-- else `iniparser_line` gets a line of 1022 at most. Then its copy of the line has 1022 at most, and
-- so has each text that one of its conversions gives on it, whichever of them are tried, each as
-- strstrip leaves it, and each of the three texts in its buffers at the end.
pub next_line-Holds :
    (kept file : Bytes) (b : Parsed)
    → length kept ≤ 1021
    → Holds 1022 b
    → Within b (next_line kept file)
next_line-Holds kept file b le h = within (next_line kept file) (next_line-IsFit kept file le)
  where
    within : (next : Next) → IsFit (length file) next → Within b next
    within at_end fit = tt
    within no_newline fit = tt
    within (continued k rest) fit = fit.1
    within (complete line rest) fit = (
      fit.1,
      omega (arith, strstrip-length line, fit.1),
      conversions-Fill 1022 (strstrip line) (omega (arith, strstrip-length line, fit.1)),
      iniparser_line-Holds 1022 line b.section b.key b.value fit.1 h,
    )
