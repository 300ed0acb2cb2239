-- ===== src/Configure/Lookup.antt =====
-- `GetStrParam` of src/common/Configure.cpp on a written file.
use mathlib.Core.Option
use web_socket_demo.Prelude.{
  ℕ, zero, suc, ◌+◌, ◌≡◌, ◌≢◌, ◌≤◌, ◌<◌, refl, ap, ◌∙◌, arith, false, ◌&&◌, List, [], ◌∷◌, ◌++◌,
  some, Bytes, ◌==◌, if◌then◌else◌, length, All, All-append, append_assoc, length-append,
}
use web_socket_demo.Text.{codes, equal}
use web_socket_demo.Startup.{is_space}
use web_socket_demo.Startup.{pos, atoi}
use web_socket_demo.Startup.Arguments.{AreDigits, decimal, value, atoi-decimal}
use web_socket_demo.Configure.{
  line_empty, line_section, line_value, skip_space, strip_end, strstrip, Parsed, iniparser_line,
}
use web_socket_demo.Configure.Reading.{
  next_line, complete, fgets, take_line, find_parsed, find_round, find_loop, get_str_param,
  get_int_param, cleared,
}
use web_socket_demo.Configure.Text.{is_last-snoc, strip_end-snoc, next_line-complete}
use web_socket_demo.Configure.Lines.{
  Line, blank, heading, entry, IsLine, text, written, IsSectionName, iniparser_line-entry,
  iniparser_line-heading,
}

-- The value that stands first with the key in a section of the name, and an empty text where
-- there is none.
abbrev pub first_value : Bytes → Bytes → Bytes → List Line → Bytes
first_value key section now [] = []
first_value key section now (blank ∷ ls) = first_value key section now ls
first_value key section now (heading s ∷ ls) = first_value key section s ls
first_value key section now (entry k v ∷ ls) =
    if equal key k && equal section now then v else first_value key section now ls

-- A line whose last character is neither a space nor a backslash.
snoc-complete :
    (f : Bytes) (x : ℕ) (rest : Bytes)
    → All (λ c. c ≢ b'\n') f
    → x ≢ b'\n'
    → is_space x ≡ false
    → (x == b'\\') ≡ false
    → length f ≤ 1021
    → next_line [] ((f ++ x ∷ []) ++ (b'\n' ∷ rest)) ≡ complete (f ++ x ∷ []) rest
snoc-complete f x rest h n sp bs le =
    next_line-complete (f ++ x ∷ []) rest (All-append (λ c. c ≢ b'\n') f (x ∷ []) h (n, tt))
      (omega (arith, length-append f (x ∷ [])))
      (rw (strip_end-snoc f x sp, is_last-snoc b'\\' x f) bs)
    ∙ ap (λ t. complete t rest) (strip_end-snoc f x sp)

-- The texts before the last character.
no_break : (s : Bytes) (t : Bytes) → All (λ c. (c ≢ b']') × (c ≢ b'\n')) s → All (λ c. c ≢ b'\n') s
no_break [] t h = tt
no_break (c ∷ s) t h = (h.0.1, no_break s t h.1)

entry-no_break :
    (k v : Bytes)
    → All (λ c. (c ≢ b'=') × (c ≢ b'\n')) k
    → All (λ c. (c ≢ b'"') × (c ≢ b'\n')) v
    → All (λ c. c ≢ b'\n') (k ++ (codes " = \"" ++ v))
entry-no_break (c ∷ k) v hk hv = (hk.0.1, entry-no_break k v hk.1 hv)
entry-no_break [] v hk hv = (omega arith, (omega arith, (omega arith, (omega arith, value v hv))))
  where
    value : (v : Bytes) → All (λ c. (c ≢ b'"') × (c ≢ b'\n')) v → All (λ c. c ≢ b'\n') v
    value [] h = tt
    value (c ∷ v) h = (h.0.1, value v h.1)

entry_text : (k v : Bytes) → text (entry k v) ≡ (k ++ (codes " = \"" ++ v)) ++ b'"' ∷ []
entry_text k v = simp append_assoc

length-entry : (k v : Bytes) → length (k ++ (codes " = \"" ++ v)) ≡ length k + length v + 4
length-entry k v = simp length-append (omega arith)

text-complete :
    (l : Line) (rest : Bytes)
    → IsLine l
    → next_line [] (text l ++ (b'\n' ∷ rest)) ≡ complete (text l) rest
text-complete blank rest h = unfold next_line fgets take_line strip_end in refl
text-complete (heading s) rest h =
    snoc-complete (b'[' ∷ s) b']' rest (omega arith, no_break s [] h.1) (omega arith) refl refl
      (omega (arith, h.3))
text-complete (entry k v) rest h =
    let t : Bytes = k ++ (codes " = \"" ++ v) in
    rw (entry_text k v) (
      snoc-complete t b'"' rest (entry-no_break k v h.0.1 h.1.0) (omega arith) refl refl
        (omega (arith, length-entry k v, h.2)))

find_step :
    (key section : Bytes) (fuel : ℕ) (file t rest : Bytes) (b : Parsed)
    → next_line [] file ≡ complete t rest
    → find_loop key section (suc fuel) [] file b
      ≡ find_round key section (find_loop key section fuel) (complete t rest) b
unfolding find_loop
find_step key section fuel file t rest b h = rw h refl

blank_step :
    (key section : Bytes) (ls : List Line) (fuel : ℕ) (b : Parsed)
    → find_loop key section (suc fuel) [] (written (blank ∷ ls)) b
      ≡ find_loop key section fuel [] (written ls) (record b { status = line_empty })
blank_step key section ls fuel b =
    find_step key section fuel (written (blank ∷ ls)) [] (written ls) b
      (text-complete blank (written ls) tt)
    ∙ unfold find_round find_parsed iniparser_line strstrip strip_end skip_space in refl

heading_step :
    (key section s : Bytes) (ls : List Line) (fuel : ℕ) (b : Parsed)
    → IsSectionName s
    → find_loop key section (suc fuel) [] (written (heading s ∷ ls)) b
      ≡ find_loop key section fuel [] (written ls) (record b { status = line_section; section = s })
unfolding find_round find_parsed
heading_step key section s ls fuel b h =
    find_step key section fuel (written (heading s ∷ ls)) (text (heading s)) (written ls) b
      (text-complete (heading s) (written ls) h)
    ∙ rw (iniparser_line-heading s b.section b.key b.value h) refl

entry_step :
    (key section k v : Bytes) (ls : List Line) (fuel : ℕ) (b : Parsed)
    → IsLine (entry k v)
    → find_loop key section (suc fuel) [] (written (entry k v ∷ ls)) b ≡ (
        if equal key k && equal section b.section
        then some v
        else find_loop key section fuel []
            (written ls)
            (record b { status = line_value; key = k; value = v }))
unfolding find_round find_parsed
entry_step key section k v ls fuel b h =
    find_step key section fuel (written (entry k v ∷ ls)) (text (entry k v)) (written ls) b
      (text-complete (entry k v) (written ls) h)
    ∙ rw (iniparser_line-entry k v b.section b.key b.value h.0 h.1) refl

find_loop-written :
    (key section : Bytes) (ls : List Line) (fuel : ℕ) (b : Parsed)
    → All IsLine ls
    → length (written ls) < fuel
    → find_loop key section fuel [] (written ls) b ≡ some (first_value key section b.section ls)
find_loop-written key section ls zero b h lt = absurd (omega arith)
find_loop-written key section [] (suc fuel) b h lt =
    unfold find_loop find_round next_line fgets in refl
find_loop-written key section (blank ∷ ls) (suc fuel) b h lt =
    blank_step key section ls fuel b ∙ find_loop-written key section ls fuel _ h.1 (omega arith)
find_loop-written key section (heading s ∷ ls) (suc fuel) b h lt =
    heading_step key section s ls fuel b h.0
    ∙ find_loop-written key section ls fuel _ h.1
        (omega (arith, length-append (text (heading s)) (b'\n' ∷ written ls)))
find_loop-written key section (entry k v ∷ ls) (suc fuel) b h lt =
    let next : Parsed = record b { status = line_value; key = k; value = v } in
    entry_step key section k v ls fuel b h.0
    ∙ rw
        (find_loop-written key section ls fuel next h.1
          (omega (arith, length-append (text (entry k v)) (b'\n' ∷ written ls))))
        (ground arith)

-- From a file of blank lines, `[section]` lines and `key = "value"` lines, whose lines have 1022
-- characters at most, whose names, keys and values strstrip leaves as they are and have neither a
-- line break nor their delimiter, where no name and no key is empty, no key begins with '#' and no
-- value is two single quotes: `GetStrParam` gives the first value with the key in a section of the
-- name, and an empty text where there is none, in at most as many rounds as the file has characters,
-- and one.
pub get_str_param-written :
    (key section : Bytes) (ls : List Line)
    → All IsLine ls
    → get_str_param key section (some (written ls)) ≡ some (first_value key section [] ls)
unfolding get_str_param
get_str_param-written key section ls h =
    find_loop-written key section ls (suc (length (written ls))) cleared h (omega arith)

-- Where that value is decimal digits, `GetIntParam` gives their number.
pub get_int_param-written :
    (key section : Bytes) (ls : List Line) (ds : Bytes)
    → All IsLine ls
    → AreDigits ds
    → first_value key section [] ls ≡ decimal ds
    → get_int_param key section (some (written ls)) ≡ some (pos (value ds))
get_int_param-written key section ls ds h d e =
    ap (Option.map atoi) (get_str_param-written key section ls h)
    ∙ ap (λ t. some (atoi t)) e
    ∙ ap some (atoi-decimal ds d)
