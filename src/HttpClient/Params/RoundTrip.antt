-- ===== src/HttpClient/Params/RoundTrip.antt =====
-- On `ParseParams` and `GetParam` (src/common/HttpClient.cpp), with the separators that the header gives.
use web_socket_demo.Prelude.{
  ℕ, zero, suc, ◌<◌, ◌≡◌, ◌≢◌, refl, arith, true, List, [], ◌∷◌, ◌++◌, Bytes, length, All,
  length-append, take-length-append, drop-skip,
}
use web_socket_demo.Text.{codes, find, HeaderMap, insert}
use web_socket_demo.Text.Find.{find-first, find-not_in}
use web_socket_demo.Handler.Headers.{insert_all}
use web_socket_demo.HttpClient.Params.{add_param, last_param, params_loop, not_empty, parse_params}

-- Names and values that hold no separator.
abbrev pub IsPlainParam : Bytes → Type 0
IsPlainParam = All (λ c. (c ≢ b'&') × (c ≢ b'='))

abbrev pub Params : Type 0
Params = List (Bytes × Bytes)

abbrev pub AreParams : Params → Type 0
AreParams = All (λ p. IsPlainParam p.0 × IsPlainParam p.1)

-- "name=value&name=value"
abbrev pub print_param : Bytes → Bytes → Bytes
print_param k v = k ++ (b'=' ∷ v)

abbrev pub print_params : Bytes × Bytes → Params → Bytes
print_params (k, v) [] = print_param k v
print_params (k, v) (q ∷ ps) = print_param k v ++ (b'&' ∷ print_params q ps)

no_amp : (l : Bytes) → IsPlainParam l → All (λ x. x ≢ b'&') l
no_amp [] h = tt
no_amp (x ∷ l) h = (h.0.0, no_amp l h.1)

no_eq : (l : Bytes) → IsPlainParam l → All (λ x. x ≢ b'=') l
no_eq [] h = tt
no_eq (x ∷ l) h = (h.0.1, no_eq l h.1)

print_param-no_amp :
    (k v : Bytes) → IsPlainParam k → IsPlainParam v → All (λ x. x ≢ b'&') (print_param k v)
print_param-no_amp [] v p q = (omega arith, no_amp v q)
print_param-no_amp (x ∷ k) v p q = (p.0.0, print_param-no_amp k v p.1 q)

add_param-print_param :
    (k v : Bytes) (m : HeaderMap)
    → IsPlainParam k
    → add_param (print_param k v) (find (b'=' ∷ []) (print_param k v)) 1 m ≡ insert k v m
unfolding add_param
add_param-print_param k v m p = ground (
  arith,
  find-first b'=' k v (no_eq k p),
  take-length-append k (b'=' ∷ v),
  drop-skip k (b'=' ∷ v) 1,
)

last_param-print_param :
    (k v : Bytes) (m : HeaderMap)
    → IsPlainParam k
    → last_param (b'=' ∷ []) (print_param k v) m ≡ insert k v m
unfolding last_param
last_param-print_param [] v m p = add_param-print_param [] v m p
last_param-print_param (x ∷ k) v m p = add_param-print_param (x ∷ k) v m p

params_loop-print_params :
    (fuel : ℕ) (p : Bytes × Bytes) (ps : Params) (m : HeaderMap)
    → length (print_params p ps) < fuel
    → AreParams (p ∷ ps)
    → params_loop fuel (b'&' ∷ []) (b'=' ∷ []) (print_params p ps) m ≡ insert_all (p ∷ ps) m
unfolding params_loop
params_loop-print_params zero p ps m f h = absurd (omega arith)
params_loop-print_params (suc fuel) (k, v) [] m f h = ground (
  arith,
  find-not_in b'&' (print_param k v) (print_param-no_amp k v h.0.0 h.0.1),
  last_param-print_param k v m h.0.0,
)
params_loop-print_params (suc fuel) (k, v) (q ∷ ps) m f h =
    let text : Bytes = print_param k v in
    let rest : Bytes = print_params q ps in
    let fits : length rest < fuel = omega (arith, length-append text (b'&' ∷ rest)) in
    ground (
      arith,
      find-first b'&' text rest (print_param-no_amp k v h.0.0 h.0.1),
      take-length-append text (b'&' ∷ rest),
      drop-skip text (b'&' ∷ rest) 1,
      add_param-print_param k v m h.0.0,
      params_loop-print_params fuel q ps (insert k v m) fits h.1,
    )

insert-not_empty : (k v : Bytes) (m : HeaderMap) → not_empty (insert k v m) ≡ true
unfolding insert
insert-not_empty k v [] = refl
insert-not_empty k v ((j, w) ∷ m) = ground arith

insert_all-not_empty :
    (ps : Params) (m : HeaderMap) → not_empty m ≡ true → not_empty (insert_all ps m) ≡ true
insert_all-not_empty [] m h = h
insert_all-not_empty ((k, v) ∷ ps) m h =
    insert_all-not_empty ps (insert k v m) (insert-not_empty k v m)

-- What is printed of one or more parameters, whose names and values have neither '&' nor '=', is read into
-- the map in order, a later value of a name in the place of an earlier one, and the result is true.
pub parse_params-print_params :
    (p : Bytes × Bytes) (ps : Params) (m : HeaderMap)
    → AreParams (p ∷ ps)
    → parse_params (print_params p ps) m (codes "&") (codes "=") ≡ (true, insert_all (p ∷ ps) m)
unfolding parse_params
parse_params-print_params p ps m h = ground (
  arith,
  params_loop-print_params (suc (length (print_params p ps))) p ps m (omega arith) h,
  insert_all-not_empty ps (insert p.0 p.1 m) (insert-not_empty p.0 p.1 m),
)
