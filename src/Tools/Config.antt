-- ===== src/Tools/Config.antt =====
-- `getConf` of src/websocket_master/Tools/fileTools.cpp on a file of settings.
use web_socket_demo.Prelude.{
  ℕ, zero, suc, ◌+◌, ◌-◌, ◌≡◌, ◌≢◌, ◌≤◌, ◌<◌, refl, ap, ◌∙◌, arith, true, List, [], ◌∷◌, ◌++◌, none,
  some, Bytes, leb, length, length-append, drop, take-length-append, drop-skip, append_assoc, All,
}
use web_socket_demo.Text.{starts_with, find}
use web_socket_demo.Configure.Text.{is_nil-snoc, fgets-line}
use web_socket_demo.Tools.{read_lines, from_place, conf_line, conf_loop, get_conf}

-- A line that fits the buffer and does not have the title.
abbrev pub IsOther : Bytes → Bytes → Type 0
IsOther title l = All (λ c. c ≢ b'\n') l × (length l ≤ 1022) × (find title (l ++ b'\n' ∷ []) ≡ none)

abbrev pub lines_of : List Bytes → Bytes → Bytes
lines_of [] rest = rest
lines_of (l ∷ ls) rest = l ++ (b'\n' ∷ lines_of ls rest)

-- "title", a character, the value and another character.
abbrev pub setting : Bytes → ℕ → Bytes → ℕ → Bytes
setting title sep value last = title ++ (sep ∷ (value ++ last ∷ []))

read_lines-line :
    (l rest : Bytes)
    → All (λ c. c ≢ b'\n') l
    → length l ≤ 1022
    → read_lines 1 [] (l ++ (b'\n' ∷ rest)) ≡ (true, l ++ b'\n' ∷ [], rest)
unfolding read_lines
read_lines-line l rest h le = rw (fgets-line 1023 l rest h (omega arith), is_nil-snoc b'\n' l) refl

starts_with-front : (p s : Bytes) → starts_with p (p ++ s) ≡ true
unfolding starts_with
starts_with-front [] s = refl
starts_with-front (c ∷ p) s = ground (arith, starts_with-front p s)

find-front : (p s : Bytes) → p ≢ [] → find p (p ++ s) ≡ some 0
unfolding find
find-front [] s n = absurd (n refl)
find-front (c ∷ p) s n = rw (starts_with-front (c ∷ p) s) refl

-- The value, without the last character and the newline.
from_place-setting :
    (stale title : Bytes) (sep : ℕ) (value : Bytes) (last : ℕ)
    → from_place stale (setting title sep value last ++ b'\n' ∷ []) (0 + length title + 1) ≡ value
unfolding from_place
from_place-setting stale title sep value last =
    let text : Bytes = title ++ (sep ∷ value) in
    let regroup : setting title sep value last ++ b'\n' ∷ [] ≡ text ++ (last ∷ b'\n' ∷ []) =
      simp append_assoc in
    let whole : length (text ++ (last ∷ b'\n' ∷ [])) - 2 ≡ length text =
      omega (arith, length-append text (last ∷ b'\n' ∷ [])) in
    let inside : leb (0 + length title + 1) (length text) ≡ true =
      ground (arith, length-append title (sep ∷ value)) in
    rw (regroup, whole, inside, take-length-append text (last ∷ b'\n' ∷ []))
      (ap (λ n. drop n text) (omega arith) ∙ drop-skip title (sep ∷ value) 1)

module _ (stale title : Bytes) where
  conf_step :
      (l rest : Bytes) (fuel : ℕ)
      → All (λ c. c ≢ b'\n') l
      → length l ≤ 1022
      → conf_loop stale title (suc fuel) (l ++ (b'\n' ∷ rest))
        ≡ conf_line stale title (l ++ b'\n' ∷ []) (conf_loop stale title fuel rest)
  unfolding conf_loop
  conf_step l rest fuel h le = rw (read_lines-line l rest h le) refl

  conf_loop-setting :
      (ls : List Bytes) (sep : ℕ) (value : Bytes) (last : ℕ) (rest : Bytes) (fuel : ℕ)
      → title ≢ []
      → All (IsOther title) ls
      → All (λ c. c ≢ b'\n') (setting title sep value last)
      → length (setting title sep value last) ≤ 1022
      → length (lines_of ls (setting title sep value last ++ (b'\n' ∷ rest))) < fuel
      → conf_loop stale title fuel (lines_of ls (setting title sep value last ++ (b'\n' ∷ rest)))
        ≡ some value
  conf_loop-setting ls sep value last rest zero n h hs le lt = absurd (omega arith)
  conf_loop-setting [] sep value last rest (suc fuel) n h hs le lt =
      let regroup : setting title sep value last ++ b'\n' ∷ []
          ≡ title ++ (sep ∷ ((value ++ last ∷ []) ++ b'\n' ∷ [])) =
        simp append_assoc in
      let found : find title (setting title sep value last ++ b'\n' ∷ []) ≡ some 0 =
        ap (find title) regroup ∙ find-front title (sep ∷ ((value ++ last ∷ []) ++ b'\n' ∷ [])) n in
      conf_step (setting title sep value last) rest fuel hs le
      ∙ rw (conf_line, found) (ap some (from_place-setting stale title sep value last))
  conf_loop-setting (l ∷ ls) sep value last rest (suc fuel) n h hs le lt =
      let more : Bytes = lines_of ls (setting title sep value last ++ (b'\n' ∷ rest)) in
      conf_step l more fuel h.0.0 h.0.1
      ∙ rw (conf_line, h.0.2)
          (conf_loop-setting ls sep value last rest fuel n h.1 hs le
            (omega (arith, length-append l (b'\n' ∷ more))))

-- In a file whose lines have 1022 characters at most, `getConf` gives what stands in the first line with
-- the title, where the title is not empty and that line begins with it: what is between the one character behind the
-- title and the last character of the line, which may be any two. What `line` held before does not matter.
get_conf-setting :
    (stale title : Bytes) (ls : List Bytes) (sep : ℕ) (value : Bytes) (last : ℕ) (rest seen : Bytes)
    → title ≢ []
    → All (IsOther title) ls
    → All (λ c. c ≢ b'\n') (setting title sep value last)
    → length (setting title sep value last) ≤ 1022
    → get_conf stale title
        (record { fd = some (lines_of ls (setting title sep value last ++ (b'\n' ∷ rest)), seen) })
      ≡ some value
unfolding get_conf
get_conf-setting stale title ls sep value last rest seen n h hs le =
    conf_loop-setting stale title ls sep value last rest _ n h hs le (omega arith)
