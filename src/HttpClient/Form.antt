-- ===== src/HttpClient/Form.antt =====
-- On `UrlEncode`, `UrlDecode`, `ParseParams` and `GetParam` (src/common/HttpClient.cpp) together: a form that
-- is encoded, parsed and decoded.
use mathlib.Core.Option
use mathlib.Core.Path.{subst}
use web_socket_demo.Prelude.{
  ◌≡◌, ◌⊎◌, refl, sym, ap, ◌∙◌, arith, Bool, true, false, [], ◌∷◌, Option, none, some, Bytes,
  IsBytes, if◌then◌else◌, All, append-nil, Bool-cases, inl, inr,
}
use web_socket_demo.Text.{codes, equal, HeaderMap, lookup}
use web_socket_demo.Text.Maps.{equal_refl, equal_sound}
use web_socket_demo.Handler.Headers.{insert_all}
use web_socket_demo.Handler.Reply.{last_value, lookup-insert_all}
use web_socket_demo.HttpClient.UrlCode.{url_encode, url_decode}
use web_socket_demo.HttpClient.UrlCode.RoundTrip.{IsSafe, url_encode-IsSafe, url_decode-url_encode}
use web_socket_demo.HttpClient.Params.{parse_params, get_param}
use web_socket_demo.HttpClient.Params.RoundTrip.{
  IsPlainParam, Params, AreParams, print_params, parse_params-print_params,
}

abbrev pub AreBytes : Params → Type 0
AreBytes = All (λ p. IsBytes p.0 × IsBytes p.1)

abbrev pub encode_one : Bytes × Bytes → Bytes × Bytes
encode_one p = (url_encode p.0, url_encode p.1)

abbrev pub encoded : Params → Params
encoded [] = []
encoded (p ∷ ps) = encode_one p ∷ encoded ps

safe-IsPlainParam : (l : Bytes) → All IsSafe l → IsPlainParam l
safe-IsPlainParam [] h = tt
safe-IsPlainParam (c ∷ l) h = ((ground arith, ground arith), safe-IsPlainParam l h.1)

encoded-AreParams : (ps : Params) → AreParams (encoded ps)
encoded-AreParams [] = tt
encoded-AreParams (p ∷ ps) = (
  (
    safe-IsPlainParam (url_encode p.0) (url_encode-IsSafe p.0),
    safe-IsPlainParam (url_encode p.1) (url_encode-IsSafe p.1),
  ),
  encoded-AreParams ps,
)

decoded_back : (t : Bytes) → IsBytes t → url_decode (url_encode t) ≡ t
decoded_back t h =
    ap url_decode (sym (append-nil (url_encode t)))
    ∙ url_decode-url_encode t [] h
    ∙ (unfold url_decode in append-nil t)

equal-url_encode :
    (j k : Bytes) → IsBytes j → IsBytes k → equal (url_encode j) (url_encode k) ≡ equal j k
equal-url_encode j k hj hk = elim (Bool-cases (equal j k)) [
  | inl e ↦
      let same : j ≡ k = equal_sound j k e in
      ap (λ t. equal (url_encode t) (url_encode k)) same ∙ equal_refl (url_encode k) ∙ sym e
  | inr e ↦ elim (Bool-cases (equal (url_encode j) (url_encode k))) [
    | inl f ↦
        let same : j ≡ k =
          sym (decoded_back j hj)
          ∙ ap url_decode (equal_sound (url_encode j) (url_encode k) f)
          ∙ decoded_back k hk in
        let yes' : equal j k ≡ true = ap (λ t. equal t k) same ∙ equal_refl k in cc
    | inr f ↦ f ∙ sym e
  ]
]

last_value-encoded :
    (k : Bytes) (ps : Params)
    → IsBytes k
    → AreBytes ps
    → last_value (url_encode k) (encoded ps) ≡ Option.map url_encode (last_value k ps)
last_value-encoded k [] hk h = refl
last_value-encoded k ((j, v) ∷ ps) hk h =
    ground (arith, last_value-encoded k ps hk h.1, equal-url_encode j k h.0.0 hk)

last_value-IsBytes :
    (k v : Bytes) (ps : Params) → AreBytes ps → last_value k ps ≡ some v → IsBytes v
last_value-IsBytes k v [] h e = cc
last_value-IsBytes k v ((j, w) ∷ ps) h e = elim (pick (last_value k ps) (equal j k) e) [
  | inl same ↦ subst IsBytes same h.0.1
  | inr found ↦ last_value-IsBytes k v ps h.1 found
]
  where
    pick :
        (o : Option Bytes) (b : Bool)
        → (elim o as (λ _. Option Bytes) [ none ↦ if b then some w else none | some u ↦ some u ])
          ≡ some v
        → (w ≡ v) ⊎ (o ≡ some v)
    pick none true f = inl (cc)
    pick none false f = cc
    pick (some u) b f = inr f

get_param_found : (m : HeaderMap) (k v : Bytes) → lookup k m ≡ some v → get_param m k ≡ v
unfolding get_param
get_param_found m k v e = ground (arith, e)

-- A form of one or more names and values of any bytes, percent-encoded, printed, parsed into an empty map and
-- looked up by the encoded name: decoding what is found gives the last value of the name.
pub url_decode-get_param :
    (p : Bytes × Bytes) (ps : Params) (k v : Bytes)
    → AreBytes (p ∷ ps)
    → IsBytes k
    → last_value k (p ∷ ps) ≡ some v
    → url_decode (
        get_param
          (parse_params (print_params (encode_one p) (encoded ps)) [] (codes "&") (codes "=")).1
          (url_encode k))
      ≡ v
url_decode-get_param p ps k v h hk e =
    ap (λ r. url_decode (get_param r.1 (url_encode k)))
      (parse_params-print_params (encode_one p) (encoded ps) [] (encoded-AreParams (p ∷ ps)))
    ∙ ap url_decode
        (get_param_found (insert_all (encoded (p ∷ ps)) []) (url_encode k) (url_encode v) found)
    ∙ decoded_back v (last_value-IsBytes k v (p ∷ ps) h e)
  where
    found : lookup (url_encode k) (insert_all (encoded (p ∷ ps)) []) ≡ some (url_encode v)
    found =
        lookup-insert_all (url_encode k) (encoded (p ∷ ps)) []
        ∙ ground (arith, last_value-encoded k (p ∷ ps) hk h, e)
