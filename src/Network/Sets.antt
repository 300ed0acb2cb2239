-- ===== src/Network/Sets.antt =====
-- On the set `ws_clients_` of src/websocket_master/network_interface.h.
use web_socket_demo.Prelude.{ℕ, ◌≡◌, refl, arith, not, ◌&&◌, ◌||◌, List, [], ◌∷◌, ◌==◌}
use web_socket_demo.Network.{contains, set_insert, set_erase}
use web_socket_demo.Network.Broadcast.{Distinct}

pub contains-set_insert :
    (i x : ℕ) (xs : List ℕ) → contains i (set_insert x xs) ≡ (contains i xs || x == i)
unfolding set_insert contains
contains-set_insert i x xs = ground arith

pub contains-set_erase :
    (i x : ℕ) (xs : List ℕ) → contains i (set_erase x xs) ≡ (contains i xs && not (i == x))
unfolding set_erase contains
contains-set_erase i x [] = refl
contains-set_erase i x (y ∷ ys) = ground (arith, contains-set_erase i x ys)

pub Distinct-set_insert : (x : ℕ) (xs : List ℕ) → Distinct xs → Distinct (set_insert x xs)
unfolding set_insert contains
Distinct-set_insert x xs d = ground arith

pub Distinct-set_erase : (x : ℕ) (xs : List ℕ) → Distinct xs → Distinct (set_erase x xs)
unfolding set_erase
Distinct-set_erase x [] d = tt
Distinct-set_erase x (y ∷ ys) d =
    ground (arith, Distinct-set_erase x ys d.1, contains-set_erase y x ys)
