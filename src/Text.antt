-- ===== src/Text.antt =====
-- What the program uses of std::string, std::getline and C strings, over lists of bytes.
pub mod Maps
pub mod Find
use Prim.Native.Char.{code}
use Prim.Native.String.{String}
use mathlib.Core.Option
use web_socket_demo.Prelude.{
  ℕ, suc, ◌+◌, drop, Bool, true, false, ◌&&◌, List, [], ◌∷◌, Option, none, some, Bytes, ◌==◌,
  if◌then◌else◌,
}

-- A text literal's bytes; every literal here is ASCII.
abbrev pub codes : String → Bytes
codes String.[] = []
codes (String.◌∷◌ c s) = code c ∷ codes s

-- operator==
unfoldable pub equal : Bytes → Bytes → Bool
equal [] [] = true
equal (x ∷ xs) (y ∷ ys) = x == y && equal xs ys
equal _ _ = false

unfoldable pub starts_with : Bytes → Bytes → Bool
starts_with [] s = true
starts_with (c ∷ pat) [] = false
starts_with (c ∷ pat) (x ∷ s) = c == x && starts_with pat s

-- `s.find(pat)` for a `pat` that is not empty; `none` is npos.
unfoldable pub find : Bytes → Bytes → Option ℕ
find pat [] = none
find pat (x ∷ s) =
    let rest = Option.map suc (find pat s) in if starts_with pat (x ∷ s) then some 0 else rest

-- `s.find(pat, pos)`
abbrev pub find_from : Bytes → ℕ → Bytes → Option ℕ
find_from pat pos s = Option.map (λ k. pos + k) (find pat (drop pos s))

abbrev pub cons_line : ℕ → List Bytes → List Bytes
cons_line c [] = (c ∷ []) ∷ []
cons_line c (l ∷ ls) = (c ∷ l) ∷ ls

-- The lines that successive calls of std::getline give, until one fails.
unfoldable pub lines : Bytes → List Bytes
lines [] = []
lines (c ∷ cs) = if c == b'\n' then [] ∷ lines cs else cons_line c (lines cs)

-- The text before a '\r' that ends it; `none` if it is empty or ends otherwise.
unfoldable pub strip_cr : Bytes → Option Bytes
strip_cr [] = none
strip_cr (c ∷ []) = if c == b'\r' then some [] else none
strip_cr (c ∷ d ∷ cs) = Option.map (◌∷◌ c) (strip_cr (d ∷ cs))

-- The bytes up to the first NUL.
unfoldable pub c_str : Bytes → Bytes
c_str [] = []
c_str (c ∷ cs) = let rest = c ∷ c_str cs in if c == 0 then [] else rest

-- std::map<std::string, std::string>; a key that is written again keeps one entry.
abbrev pub HeaderMap : Type 0
HeaderMap = List (Bytes × Bytes)

unfoldable pub lookup : Bytes → HeaderMap → Option Bytes
lookup k [] = none
lookup k ((j, v) ∷ m) = if equal j k then some v else lookup k m

-- `m[k] = v`
unfoldable pub insert : Bytes → Bytes → HeaderMap → HeaderMap
insert k v [] = (k, v) ∷ []
insert k v ((j, w) ∷ m) = if equal j k then (j, v) ∷ m else (j, w) ∷ insert k v m

-- `m[k]`, read: an absent key is inserted with an empty value.
unfoldable pub index : Bytes → HeaderMap → Bytes × HeaderMap
index k m = elim (lookup k m) [ none ↦ ([], insert k [] m) | some v ↦ (v, m) ]
