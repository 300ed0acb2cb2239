-- ===== src/DebugLog.antt =====
-- `DEBUG_LOG` and `Debug_LOG::write_log` of src/websocket_master/debug_log.cpp, as they are built: without
-- __WRITE_FILE__, so that the text goes to the console.
use web_socket_demo.Prelude.{
  ℕ, ◌+◌, ◌≡◌, ◌≤◌, ◌<◌, refl, arith, true, [], ◌∷◌, ◌++◌, Bytes, ◌==◌, length, length-append,
  check_below, check_below_sound, ==_iff,
}
use web_socket_demo.Text.{codes}
use web_socket_demo.StringCommon.{print_digits}
use web_socket_demo.Trace.{Clock, padded}

-- The array `message`, of 256 characters.
unfoldable pub message : Clock → Bytes → Bytes
message t msg =
    b'['
    ∷ (padded 2 t.hour
        ++ (b':'
            ∷ (padded 2 t.min ++ (b':' ∷ (padded 2 t.sec ++ (codes "] " ++ (msg ++ b'\n' ∷ [])))))))

-- `msg` is what vsprintf makes of the arguments; the console behind the call.
abbrev pub write_log : Clock → Bytes → Bytes → Bytes
write_log t msg console = console ++ (b'\n' ∷ message t msg)

two_digits : check_below 100 (λ n. length (padded 2 n) == 2) ≡ true
unfolding check_below padded print_digits
two_digits = refl

padded-length : (n : ℕ) → n < 100 → length (padded 2 n) ≡ 2
padded-length n h =
    (==_iff (length (padded 2 n)) 2).0
      (check_below_sound 100 (λ n. length (padded 2 n) == 2) n two_digits h)

-- A message of 243 characters or fewer fits `message` with its NUL, at any time of the day.
pub message-length :
    (t : Clock) (msg : Bytes)
    → t.hour < 24
    → t.min < 60
    → t.sec < 61
    → length msg ≤ 243
    → length (message t msg) + 1 ≤ 256
unfolding message
message-length t msg hh hm hs h =
    let whole : length (message t msg) ≡ 12 + length msg = simp length-append (
      omega (
        arith,
        padded-length t.hour (omega (arith, hh)),
        padded-length t.min (omega (arith, hm)),
        padded-length t.sec (omega (arith, hs)),
      )) in
    omega (arith, whole, h)
