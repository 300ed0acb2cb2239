-- ===== src/HttpClient/Messages/Reply.antt =====
-- On `getHttpData` (src/common/HttpClient.cpp): the body of a reply with a length.
use web_socket_demo.Prelude.{
  ℕ, ◌+◌, ◌-◌, ◌^◌, ◌≤◌, ◌<◌, ◌≡◌, refl, sym, arith, true, [], ◌∷◌, ◌++◌, none, some, Bytes, leb,
  if◌then◌else◌, length, take, drop, length-append, take-length-append, drop-length-append,
  drop-skip, append_assoc,
}
use web_socket_demo.Text.{codes, starts_with, find, find_from}
use web_socket_demo.Handler.Headers.{
  IsPlain, Headers, AreHeaders, fields, request_text, blank_line, find-request_text,
}
use web_socket_demo.Startup.{pos}
use web_socket_demo.Startup.Arguments.{AreDigits, decimal, value}
use web_socket_demo.StringCommon.{strtol, from_string_int32}
use web_socket_demo.StringCommon.RoundTrip.{strtol-decimal}
use web_socket_demo.HttpClient.Messages.{take_body, take_length, with_length, get_http_data}

abbrev pub content_length : Bytes
content_length = codes "Content-Length"

-- A reply: its first line, headers with a Content-Length among them, the blank line and the body.
abbrev pub reply_headers : Headers → Bytes → Headers → Headers
reply_headers before ds after = before ++ (content_length, decimal ds) ∷ after

abbrev pub reply_text : Bytes → Headers → Bytes → Headers → Bytes → Bytes
reply_text line before ds after body = request_text line (reply_headers before ds after) ++ body

from_string_int32-blank :
    (ds : Bytes)
    → 1 ≤ length ds
    → AreDigits ds
    → value ds < 2 ^ 31
    → from_string_int32 (b' ' ∷ decimal ds) ≡ (true, pos (value ds))
unfolding from_string_int32 strtol
from_string_int32-blank ds l h v = ground (arith, strtol-decimal ds l h)

fields-append : (hs gs : Headers) → fields (hs ++ gs) ≡ fields hs ++ fields gs
fields-append [] gs = refl
fields-append ((k, v) ∷ hs) gs = rw (fields-append hs gs) (simp append_assoc)

find-line_break :
    (l s : Bytes) → IsPlain l → find (codes "\r\n") (l ++ (b'\r' ∷ b'\n' ∷ s)) ≡ some (length l)
unfolding find starts_with
find-line_break [] s h = refl
find-line_break (c ∷ l) s h = ground (arith, find-line_break l s h.1)

decimal-IsPlain : (ds : Bytes) → AreDigits ds → IsPlain (decimal ds)
decimal-IsPlain [] h = tt
decimal-IsPlain (d ∷ ds) h = ((omega arith, omega arith), decimal-IsPlain ds h.1)

module _ (line : Bytes) (before : Headers) (ds : Bytes) (after : Headers) (body : Bytes) where
  -- All before the name, and all behind the length.
  front : Bytes
  front = line ++ (b'\r' ∷ b'\n' ∷ fields before)

  behind : Bytes
  behind = fields after ++ (b'\r' ∷ b'\n' ∷ body)

  length_line : Bytes
  length_line = content_length ++ (b':' ∷ b' ' ∷ decimal ds)

  reply-front :
      reply_text line before ds after body ≡ front ++ (length_line ++ (b'\r' ∷ b'\n' ∷ behind))
  unfolding front behind length_line
  reply-front = rw (fields-append before ((content_length, decimal ds) ∷ after)) (simp append_assoc)

  length-length_line : length length_line ≡ 16 + length (decimal ds)
  unfolding length_line
  length-length_line = omega arith

  -- The text behind the name, up to the end of its line.
  len_str-decimal :
      take
        (length front + length length_line - length front - 15)
        (drop (length front + 15) (reply_text line before ds after body))
      ≡ b' ' ∷ decimal ds
  unfolding length_line
  len_str-decimal =
      let count : length front + (16 + length (decimal ds)) - length front - 15
          ≡ length (b' ' ∷ decimal ds) =
        omega arith in
      rw
        (
          reply-front,
          drop-skip front (length_line ++ (b'\r' ∷ b'\n' ∷ behind)) 15,
          length-length_line,
          count,
        )
        (take-length-append (b' ' ∷ decimal ds) (b'\r' ∷ b'\n' ∷ behind))

  find-line_end :
      AreDigits ds
      → find_from (codes "\r\n") (length front + 1) (reply_text line before ds after body)
        ≡ some (length front + length length_line)
  unfolding length_line
  find-line_end h =
      let text : Bytes = codes "ontent-Length: " ++ decimal ds in
      let plain : IsPlain text = ground (arith, decimal-IsPlain ds h) in
      let found : find (codes "\r\n") (text ++ (b'\r' ∷ b'\n' ∷ behind)) ≡ some (length text) =
        find-line_break text behind plain in
      rw (reply-front, drop-skip front (length_line ++ (b'\r' ∷ b'\n' ∷ behind)) 1)
        (ground (arith, found))

length-request_text :
    (line : Bytes) (hs : Headers)
    → length (request_text line hs) ≡ length line + length (fields hs) + 4
length-request_text line hs = simp length-append (omega arith)

take_body-request_text :
    (line : Bytes) (hs : Headers) (body : Bytes) (n : ℕ)
    → IsPlain line
    → AreHeaders hs
    → take_body
        (request_text line hs ++ body)
        (pos n)
        (find blank_line (request_text line hs ++ body))
      ≡ (if leb n (length body) then some (take n body) else none)
unfolding take_body
take_body-request_text line hs body n p q =
    let text : Bytes = request_text line hs in
    let here : length line + length (fields hs) + 4 ≡ length text =
      sym (length-request_text line hs) in
    let left : length (text ++ body) - (length line + length (fields hs)) - 4 ≡ length body =
      omega (arith, here, length-append text body) in
    rw (find-request_text line hs body p q, left, here, drop-length-append text body) refl

reply_headers-AreHeaders :
    (before : Headers) (ds : Bytes) (after : Headers)
    → AreHeaders before
    → AreHeaders after
    → AreDigits ds
    → AreHeaders (reply_headers before ds after)
reply_headers-AreHeaders [] ds after hb ha d = ((ground arith, decimal-IsPlain ds d), ha)
reply_headers-AreHeaders (h ∷ before) ds after hb ha d =
    (hb.0, reply_headers-AreHeaders before ds after hb.1 ha d)

-- Of a reply whose headers have a Content-Length of decimal digits, below 2^31, and whose first
-- "Content-Length:" is that header, `getHttpData` gives the first bytes of the body, as many as
-- the header says, and fails where the body has fewer.
pub get_http_data-reply_text :
    (line : Bytes) (before : Headers) (ds : Bytes) (after : Headers) (body : Bytes)
    → IsPlain line
    → AreHeaders before
    → AreHeaders after
    → AreDigits ds
    → 1 ≤ length ds
    → value ds < 2 ^ 31
    → find (codes "Content-Length:") (reply_text line before ds after body)
      ≡ some (length line + 2 + length (fields before))
    → get_http_data (reply_text line before ds after body)
      ≡ (if leb (value ds) (length body) then some (take (value ds) body) else none)
unfolding get_http_data with_length take_length
get_http_data-reply_text line before ds after body p hb ha d l v first =
    let name_pos : length line + 2 + length (fields before)
        ≡ length (front line before ds after body) =
      unfold front in simp length-append (omega arith) in
    rw
      (
        first,
        name_pos,
        find-line_end line before ds after body d,
        len_str-decimal line before ds after body,
        from_string_int32-blank ds l d v,
      )
      (take_body-request_text line (reply_headers before ds after) body (value ds) p
        (reply_headers-AreHeaders before ds after hb ha d))
