-- ===== src/HttpClient/Params.antt =====
-- `ParseParams` and `GetParam` of src/common/HttpClient.cpp. The loop runs on what is left of the text from
-- `lStartPos` on, with fuel; an empty separator would let the source run for ever.
pub mod RoundTrip
use web_socket_demo.Prelude.{
  ℕ, zero, suc, ◌+◌, Bool, true, false, [], ◌∷◌, Option, none, some, Bytes, ltb, if◌then◌else◌,
  length, take, drop,
}
use web_socket_demo.Text.{codes, find, HeaderMap, lookup, insert}

-- The segment, cut at `pos` where `pos` was found, and entered in the map; `skip` is the length of the
-- separator that is left out.
unfoldable pub add_param : Bytes → Option ℕ → ℕ → HeaderMap → HeaderMap
add_param param none skip m = insert param [] m
add_param param (some pos) skip m = insert (take pos param) (drop (pos + skip) param) m

-- Behind the loop: the last segment, where '=' is looked for whatever the separator is.
unfoldable pub last_param : Bytes → Bytes → HeaderMap → HeaderMap
unfolding add_param
last_param value_sep [] m = m
last_param value_sep (c ∷ cs) m =
    add_param (c ∷ cs) (find (b'=' ∷ []) (c ∷ cs)) (length value_sep) m

unfoldable pub params_loop : ℕ → Bytes → Bytes → Bytes → HeaderMap → HeaderMap
params_loop zero sep value_sep rest m = m
params_loop (suc fuel) sep value_sep rest m = elim (find sep rest) [
  | none ↦ last_param value_sep rest m
  | some pos ↦
      let param = take pos rest in
      params_loop fuel sep value_sep (drop (pos + length sep) rest)
        (add_param param (find value_sep param) (length value_sep) m)
]

-- `none` is the empty map, for which the result is false.
abbrev pub not_empty : HeaderMap → Bool
not_empty [] = false
not_empty (e ∷ m) = true

unfoldable pub parse_params : Bytes → HeaderMap → Bytes → Bytes → Bool × HeaderMap
parse_params params m sep value_sep =
    let m' = params_loop (suc (length params)) sep value_sep params m in (not_empty m', m')

unfoldable pub get_param : HeaderMap → Bytes → Bytes
get_param m name = elim (lookup name m) [ none ↦ [] | some v ↦ v ]
