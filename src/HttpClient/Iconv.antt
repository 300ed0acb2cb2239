-- ===== src/HttpClient/Iconv.antt =====
-- `stringIconv` and `getCurrentTime` of src/common/HttpClient.cpp, with what iconv and ftime give.
use web_socket_demo.Prelude.{
  ℕ, ◌+◌, ◌*◌, ◌%◌, ◌^◌, ◌≡◌, refl, arith, Bool, true, false, List, [], ◌∷◌, Option, none, some,
  if◌then◌else◌, ◌==◌, ◌-◌, ltb,
}
use web_socket_demo.Startup.{ℤ, pos, negsuc}

-- The conversion descriptors: those open, and the next one.
pub record Converters : Type 0 where
  pub opened : List ℕ
  pub next : ℕ

abbrev pub iconv_open : Bool → Converters → Option ℕ × Converters
iconv_open false s = (none, s)
iconv_open true s = (some s.next, record { opened = s.next ∷ s.opened; next = s.next + 1 })

abbrev pub remove : ℕ → List ℕ → List ℕ
remove d [] = []
remove d (x ∷ xs) = let rest = remove d xs in if x == d then xs else x ∷ rest

abbrev pub iconv_close : ℕ → Converters → Converters
iconv_close d s = record { opened = remove d s.opened; next = s.next }

-- `(int)result` of a size_t.
abbrev pub int_of : ℕ → ℤ
int_of n = let low = n % 2 ^ 32 in if ltb low (2 ^ 31) then pos low else negsuc (2 ^ 32 - low - 1)

-- `opens` is iconv_open's success; `result` is what iconv gives, none for (size_t)-1.
unfoldable pub converted : Option ℕ → ℕ → Converters → ℤ × Converters
converted none env s = (negsuc 0, iconv_close env s)
converted (some result) env s = (int_of result, iconv_close env s)

unfoldable pub string_iconv : Bool → Option ℕ → Converters → ℤ × Converters
string_iconv opens result s =
    let env = iconv_open opens s in
    elim env.0 [ none ↦ (negsuc 0, env.1) | some e ↦ converted result e env.1 ]

-- From the seconds and the milliseconds of a struct timeb.
unfoldable pub get_current_time : ℕ → ℕ → ℕ
get_current_time time millitm = (time * 1000 % 2 ^ 64 + millitm) % 2 ^ 64

remove-front : (d : ℕ) (ds : List ℕ) → remove d (d ∷ ds) ≡ ds
remove-front d ds = ground arith

-- `stringIconv` leaves the same converters open as before, whether iconv_open fails, iconv fails
-- or both succeed.
pub string_iconv-IsReleased :
    (opens : Bool) (result : Option ℕ) (s : Converters)
    → (string_iconv opens result s).1.opened ≡ s.opened
unfolding string_iconv converted
string_iconv-IsReleased false result s = refl
string_iconv-IsReleased true none s = remove-front s.next s.opened
string_iconv-IsReleased true (some n) s = remove-front s.next s.opened
