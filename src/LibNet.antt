-- ===== src/LibNet.antt =====
-- `CLibNet::GetIpByName` of src/common/libNet.cpp, as it is built on Linux.
use web_socket_demo.Prelude.{ℕ, [], ◌∷◌, ◌++◌, Bytes}
use web_socket_demo.StringCommon.{print_digits}

-- What gethostbyname_r gives: an error, no host, or the four bytes of its first address.
pub data Resolved : Type 0 where
  refused no_host : Resolved
  first_address : ℕ → ℕ → ℕ → ℕ → Resolved

-- inet_ntoa
unfoldable pub inet_ntoa : ℕ → ℕ → ℕ → ℕ → Bytes
inet_ntoa a b c d =
    print_digits 3 a
    ++ (b'.' ∷ (print_digits 3 b ++ (b'.' ∷ (print_digits 3 c ++ (b'.' ∷ print_digits 3 d)))))

abbrev pub get_ip_by_name : Resolved → Bytes
get_ip_by_name refused = []
get_ip_by_name no_host = []
get_ip_by_name (first_address a b c d) = inet_ntoa a b c d
