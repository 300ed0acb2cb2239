-- ===== src/Handler/Headers.antt =====
-- The HTTP request as a client writes it, for `fetch_http_info` of
-- src/websocket_master/websocket_handler.cpp.
use mathlib.Core.Option
use web_socket_demo.Prelude.{
  ℕ, suc, ◌+◌, ◌≡◌, ◌≢◌, refl, sym, ap, ◌∙◌, arith, true, false, List, [], ◌∷◌, ◌++◌, some, Bytes,
  length, length-append, take-length-append, drop-skip, All, append_assoc,
}
use web_socket_demo.Text.{codes, equal, starts_with, find, lines, strip_cr, HeaderMap, insert}
use web_socket_demo.Handler.{add_header, header_loop, fetch_http_info}

-- A text with no line break in it, and a header's name: such a text, not empty, with no colon.
abbrev pub IsPlain : Bytes → Type 0
IsPlain = All (λ c. (c ≢ b'\r') × (c ≢ b'\n'))

abbrev pub IsName : Bytes → Type 0
IsName k = (k ≢ []) × All (λ c. (c ≢ b'\r') × (c ≢ b'\n') × (c ≢ b':')) k

abbrev pub Headers : Type 0
Headers = List (Bytes × Bytes)

abbrev pub AreHeaders : Headers → Type 0
AreHeaders = All (λ h. IsName h.0 × IsPlain h.1)

-- "Name: value\r\n" for each header.
abbrev pub fields : Headers → Bytes
fields [] = []
fields ((k, v) ∷ hs) = k ++ (b':' ∷ b' ' ∷ (v ++ (b'\r' ∷ b'\n' ∷ fields hs)))

-- From the end of the request line on, with what follows the request.
abbrev pub after_line : Headers → Bytes → Bytes
after_line hs rest = b'\r' ∷ b'\n' ∷ (fields hs ++ (b'\r' ∷ b'\n' ∷ rest))

-- The map that the headers stand for: the last value of a name counts.
abbrev pub insert_all : Headers → HeaderMap → HeaderMap
insert_all [] m = m
insert_all ((k, v) ∷ hs) m = insert_all hs (insert k v m)

lines-plain :
    (l rest : Bytes)
    → IsPlain l
    → lines (l ++ (b'\r' ∷ b'\n' ∷ rest)) ≡ (l ++ b'\r' ∷ []) ∷ lines rest
unfolding lines
lines-plain [] rest p = refl
lines-plain (c ∷ l) rest p = ground (arith, lines-plain l rest p.1)

strip_cr-snoc : (l : Bytes) → strip_cr (l ++ b'\r' ∷ []) ≡ some l
unfolding strip_cr
strip_cr-snoc [] = refl
strip_cr-snoc (c ∷ []) = refl
strip_cr-snoc (c ∷ d ∷ l) = rw (strip_cr-snoc (d ∷ l))

find-colon :
    (k v : Bytes)
    → All (λ c. (c ≢ b'\r') × (c ≢ b'\n') × (c ≢ b':')) k
    → find (codes ": ") (k ++ (b':' ∷ b' ' ∷ v)) ≡ some (length k)
unfolding find starts_with
find-colon [] v p = refl
find-colon (c ∷ k) v p = ground (arith, find-colon k v p.1)

add_header_line :
    (k v : Bytes) (m : HeaderMap) → IsName k → add_header (k ++ (b':' ∷ b' ' ∷ v)) m ≡ insert k v m
unfolding add_header
add_header_line k v m n = ground (
  arith,
  find-colon k v n.1,
  take-length-append k (b':' ∷ b' ' ∷ v),
  drop-skip k (b':' ∷ b' ' ∷ v) 2,
)

header-IsPlain :
    (k v : Bytes)
    → All (λ c. (c ≢ b'\r') × (c ≢ b'\n') × (c ≢ b':')) k
    → IsPlain v
    → IsPlain (k ++ (b':' ∷ b' ' ∷ v))
header-IsPlain [] v p q = ((omega arith, omega arith), ((omega arith, omega arith), q))
header-IsPlain (c ∷ k) v p q = ((p.0.0, p.0.1), header-IsPlain k v p.1 q)

-- A line of a header is not the empty line that ends the headers.
not_last : (k w : Bytes) → k ≢ [] → equal ((k ++ (b':' ∷ w)) ++ b'\r' ∷ []) (codes "\r") ≡ false
unfolding equal
not_last [] w n = absurd (n refl)
not_last (c ∷ []) w n = ground arith
not_last (c ∷ d ∷ k) w n = ground arith

header_loop-fields :
    (hs : Headers) (rest : Bytes) (m : HeaderMap)
    → AreHeaders hs
    → header_loop (lines (fields hs ++ (b'\r' ∷ b'\n' ∷ rest))) m ≡ insert_all hs m
header_loop-fields [] rest m p = unfold header_loop lines equal in refl
header_loop-fields ((k, v) ∷ hs) rest m p =
    rw (regroup, lines-plain text (fields hs ++ (b'\r' ∷ b'\n' ∷ rest)) plain)
      (one_line ∙ header_loop-fields hs rest (insert k v m) p.1)
  where
    text : Bytes
    text = k ++ (b':' ∷ b' ' ∷ v)

    regroup :
        fields ((k, v) ∷ hs) ++ (b'\r' ∷ b'\n' ∷ rest)
        ≡ text ++ (b'\r' ∷ b'\n' ∷ (fields hs ++ (b'\r' ∷ b'\n' ∷ rest)))
    regroup = simp append_assoc

    plain : IsPlain text
    plain = header-IsPlain k v p.0.0.1 p.0.1

    one_line :
        header_loop ((text ++ b'\r' ∷ []) ∷ lines (fields hs ++ (b'\r' ∷ b'\n' ∷ rest))) m
        ≡ header_loop (lines (fields hs ++ (b'\r' ∷ b'\n' ∷ rest))) (insert k v m)
    one_line =
        unfold header_loop in
        ground
          (arith, not_last k (b' ' ∷ v) p.0.0.0, strip_cr-snoc text, add_header_line k v m p.0.0)

-- A request: its first line, the headers and the empty line.
abbrev pub request_text : Bytes → Headers → Bytes
request_text line hs = line ++ after_line hs []

-- From the bytes of a request, whose first line and values have no line break and whose names are
-- not empty and have neither line break nor colon, `fetch_http_info` reads exactly the headers
-- into the map, and succeeds.
pub fetch_http_info-request_text :
    (line : Bytes) (hs : Headers) (m : HeaderMap)
    → IsPlain line
    → AreHeaders hs
    → fetch_http_info m (request_text line hs) ≡ (insert_all hs m, true)
unfolding fetch_http_info
fetch_http_info-request_text line hs m p q = ground (
  arith,
  lines-plain line (fields hs ++ (b'\r' ∷ b'\n' ∷ [])) p,
  strip_cr-snoc line,
  header_loop-fields hs [] m q,
)

-- The blank line that ends the headers.
abbrev pub blank_line : Bytes
blank_line = codes "\r\n\r\n"

-- A text with no '\r' is passed over.
find-skip :
    (l s : Bytes)
    → IsPlain l
    → find blank_line (l ++ s) ≡ Option.map (λ k. length l + k) (find blank_line s)
unfolding find starts_with
find-skip [] s p = ground arith
find-skip (c ∷ l) s p = ground (arith, find-skip l s p.1)

find_line :
    (text s : Bytes) (c : ℕ)
    → IsPlain (c ∷ text)
    → find blank_line (b'\r' ∷ b'\n' ∷ ((c ∷ text) ++ s))
      ≡ Option.map (λ k. 2 + (suc (length text) + k)) (find blank_line s)
find_line text s c p = ground (arith, find-skip (c ∷ text) s p, passes ((c ∷ text) ++ s) p.0.0)
  where
    passes :
        (t : Bytes)
        → c ≢ b'\r'
        → find blank_line (b'\r' ∷ b'\n' ∷ ((c ∷ text) ++ s))
          ≡ Option.map (λ k. suc (suc k)) (find blank_line ((c ∷ text) ++ s))
    passes t ne = unfold find starts_with in ground arith

find-after_line :
    (hs : Headers) (rest : Bytes)
    → AreHeaders hs
    → find blank_line (after_line hs rest) ≡ some (length (fields hs))
find-after_line [] rest p = unfold find starts_with in refl
find-after_line (([], v) ∷ hs) rest p = absurd (p.0.0.0 refl)
find-after_line ((c ∷ k, v) ∷ hs) rest p =
    let text : Bytes = k ++ (b':' ∷ b' ' ∷ v) in
    let regroup : after_line ((c ∷ k, v) ∷ hs) rest
        ≡ b'\r' ∷ b'\n' ∷ ((c ∷ text) ++ after_line hs rest) =
      simp append_assoc in
    let whole : fields ((c ∷ k, v) ∷ hs) ≡ (c ∷ text) ++ (b'\r' ∷ b'\n' ∷ fields hs) =
      simp append_assoc in
    let found : Option.map (λ j. 2 + (suc (length text) + j)) (find blank_line (after_line hs rest))
        ≡ some (length ((c ∷ text) ++ (b'\r' ∷ b'\n' ∷ fields hs))) =
      ground (
        arith,
        find-after_line hs rest p.1,
        length-append (c ∷ text) (b'\r' ∷ b'\n' ∷ fields hs),
      ) in
    ap (find blank_line) regroup
    ∙ find_line text (after_line hs rest) c (header-IsPlain (c ∷ k) v p.0.0.1 p.0.1)
    ∙ found
    ∙ sym (ap (λ t. some (length t)) whole)

-- The end of a request that stands at the front of a buffer is found where it is.
pub find-request_text :
    (line : Bytes) (hs : Headers) (rest : Bytes)
    → IsPlain line
    → AreHeaders hs
    → find blank_line (request_text line hs ++ rest) ≡ some (length line + length (fields hs))
find-request_text line hs rest p q =
    rw regroup (ground (arith, find-skip line (after_line hs rest) p, find-after_line hs rest q))
  where
    regroup : request_text line hs ++ rest ≡ line ++ after_line hs rest
    regroup = simp append_assoc
