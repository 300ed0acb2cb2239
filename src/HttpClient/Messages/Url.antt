-- ===== src/HttpClient/Messages/Url.antt =====
-- On `parseHttpParameter` (src/common/HttpClient.cpp): the parts of a URL.
use mathlib.Core.Option
use web_socket_demo.Prelude.{
  ℕ, suc, ◌+◌, ◌-◌, ◌≡◌, ◌≢◌, refl, sym, ap, ◌∙◌, arith, [], ◌∷◌, ◌++◌, Option, none, some, Bytes,
  length, take, drop, All, length-append, take-length-append, drop-length-append, drop-skip,
  append_assoc, append-nil,
}
use web_socket_demo.Text.{codes, starts_with, find, find_from}
use web_socket_demo.Text.Find.{find-first, find-not_in}
use web_socket_demo.HttpClient.Messages.{split_page, split_host, after_scheme, parse_http_parameter}

abbrev pub IsHost : Bytes → Type 0
IsHost = All (λ c. (c ≢ b'/') × (c ≢ b'?'))

abbrev pub IsPath : Bytes → Type 0
IsPath = All (λ c. c ≢ b'?')

-- "?parameter", or nothing.
abbrev pub query : Option Bytes → Bytes
query none = []
query (some q) = b'?' ∷ q

abbrev pub url_text : Bytes → Bytes → Option Bytes → Bytes
url_text host path q = codes "http://" ++ (host ++ (b'/' ∷ (path ++ query q)))

abbrev pub parameter_of : Option Bytes → Bytes
parameter_of none = []
parameter_of (some q) = q

find-scheme : (s : Bytes) → find (codes "http://") (codes "http://" ++ s) ≡ some 0
unfolding find starts_with
find-scheme s = refl

find-slash :
    (host s : Bytes)
    → IsHost host
    → find_from (codes "/") 7 (codes "http://" ++ (host ++ (b'/' ∷ s))) ≡ some (7 + length host)
find-slash host s h = ap (Option.map (λ k. 7 + k)) (find-first b'/' host s (no_slash host h))
  where
    no_slash : (l : Bytes) → IsHost l → All (λ x. x ≢ b'/') l
    no_slash [] g = tt
    no_slash (x ∷ l) g = (g.0.0, no_slash l g.1)

front-no_mark :
    (host path : Bytes)
    → IsHost host
    → IsPath path
    → All (λ x. x ≢ b'?') (codes "http://" ++ (host ++ (b'/' ∷ path)))
front-no_mark host path h p = (
  omega arith,
  (
    omega arith,
    (omega arith, (omega arith, (omega arith, (omega arith, (omega arith, go host h))))),
  ),
)
  where
    go : (l : Bytes) → IsHost l → All (λ x. x ≢ b'?') (l ++ (b'/' ∷ path))
    go [] g = (omega arith, p)
    go (x ∷ l) g = (g.0.1, go l g.1)

module _ (host path : Bytes) where
  -- All before the query.
  front : Bytes
  front = codes "http://" ++ (host ++ (b'/' ∷ path))

  url-front : (q : Option Bytes) → url_text host path q ≡ front ++ query q
  unfolding front
  url-front q = ap (λ t. codes "http://" ++ t) (sym (append_assoc host (b'/' ∷ path) (query q)))

  find-mark :
      (q : Option Bytes)
      → IsHost host
      → IsPath path
      → find (codes "?") (url_text host path q) ≡ Option.map (λ t. length front) q
  unfolding front
  find-mark none h p =
      ap (find (codes "?")) (url-front none ∙ append-nil front)
      ∙ find-not_in b'?' front (front-no_mark host path h p)
  find-mark (some q) h p =
      ap (find (codes "?")) (url-front (some q))
      ∙ find-first b'?' front q (front-no_mark host path h p)

  length-front : length front ≡ 8 + length host + length path
  unfolding front
  length-front = omega (arith, length-append host (b'/' ∷ path))

split_page-parts :
    (host path : Bytes) (q : Option Bytes)
    → split_page
        (url_text host path q)
        (take (7 + length host - 7) (drop 7 (url_text host path q)))
        (7 + length host)
        (Option.map (λ t. length (front host path)) q)
      ≡ record { host = host; page = b'/' ∷ path; parameter = parameter_of q }
unfolding split_page
split_page-parts host path none = ground (
  arith,
  ap (λ (n : ℕ). take n (host ++ (b'/' ∷ (path ++ [])))) (front_length (length host)),
  take-length-append host (b'/' ∷ (path ++ [])),
  drop-skip (codes "http://") (host ++ (b'/' ∷ (path ++ []))) (length host),
  drop-length-append host (b'/' ∷ (path ++ [])),
  append-nil path,
)
  where
    front_length : (n : ℕ) → 7 + n - 7 ≡ n
    front_length n = omega arith
split_page-parts host path (some q) = ground (
  arith,
  ap (λ (n : ℕ). take n (host ++ (b'/' ∷ (path ++ (b'?' ∷ q))))) (front_length (length host)),
  take-length-append host (b'/' ∷ (path ++ (b'?' ∷ q))),
  drop-skip (codes "http://") (host ++ (b'/' ∷ (path ++ (b'?' ∷ q)))) (length host),
  drop-length-append host (b'/' ∷ (path ++ (b'?' ∷ q))),
  ap (λ (n : ℕ). take n (b'/' ∷ (path ++ (b'?' ∷ q)))) path_length,
  take-length-append (b'/' ∷ path) (b'?' ∷ q),
  url-front host path (some q),
  drop-skip (front host path) (b'?' ∷ q) 1,
  length-front host path,
)
  where
    front_length : (n : ℕ) → 7 + n - 7 ≡ n
    front_length n = omega arith

    path_length : length (front host path) - (7 + length host) ≡ suc (length path)
    path_length = omega (arith, length-front host path)

-- A URL "http://host/path?parameter", with or without a parameter, whose host has neither '/' nor '?' and
-- whose path has no '?', is split into its parts.
pub parse_http_parameter-url_text :
    (host path : Bytes) (q : Option Bytes)
    → IsHost host
    → IsPath path
    → parse_http_parameter (url_text host path q)
      ≡ some (record { host = host; page = b'/' ∷ path; parameter = parameter_of q })
unfolding parse_http_parameter after_scheme split_host
parse_http_parameter-url_text host path q h p =
    rw
      (
        find-scheme (host ++ (b'/' ∷ (path ++ query q))),
        find-slash host (path ++ query q) h,
        find-mark host path q h p,
      )
      (ap some (split_page-parts host path q))
