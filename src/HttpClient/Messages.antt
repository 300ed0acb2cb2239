-- ===== src/HttpClient/Messages.antt =====
-- `parseHttpParameter`, `getHttpData` and the two requests of src/common/HttpClient.cpp.
pub mod Url
pub mod Reply
use web_socket_demo.Prelude.{
  ℕ, ◌+◌, ◌-◌, Bool, true, false, [], ◌∷◌, ◌++◌, Option, none, some, Bytes, ltb, leb, ◌==◌,
  if◌then◌else◌, length, take, drop,
}
use web_socket_demo.Text.{codes, find, find_from}
use web_socket_demo.Startup.{ℤ, pos, negsuc}
use web_socket_demo.StringCommon.{from_string_int32, to_string}

-- What `parseHttpParameter` fills.
pub record Target : Type 0 where
  pub host : Bytes
  pub page : Bytes
  pub parameter : Bytes

-- From the '/' at `host_pos` on; a '?' that stands before it makes the count of `substr` wrap around, which
-- takes all that is left.
unfoldable pub split_page : Bytes → Bytes → ℕ → Option ℕ → Target
split_page url host host_pos none = record { host = host; page = drop host_pos url; parameter = [] }
split_page url host host_pos (some path_pos) = record {
  host = host;
  page =
      if ltb path_pos host_pos
      then drop host_pos url
      else take (path_pos - host_pos) (drop host_pos url);
  parameter = drop (path_pos + 1) url;
}

unfoldable pub split_host : Bytes → Option ℕ → Option Target
split_host url none = none
split_host url (some host_pos) =
    some (split_page url (take (host_pos - 7) (drop 7 url)) host_pos (find (codes "?") url))

-- "http://" may stand anywhere, and the host is what follows the seventh character.
unfoldable pub after_scheme : Bytes → Option ℕ → Option Target
after_scheme url none = none
after_scheme url (some scheme_pos) = split_host url (find_from (codes "/") 7 url)

-- An empty text has no "http://".
unfoldable pub parse_http_parameter : Bytes → Option Target
parse_http_parameter url = after_scheme url (find (codes "http://") url)

-- `response.length() - endPos - 4 >= len`, where `len` is made a size_t: a negative one is too large.
abbrev pub body_holds : ℕ → ℤ → Bool
body_holds n (negsuc k) = false
body_holds n (pos len) = leb len n

abbrev pub size_of : ℤ → ℕ
size_of (negsuc k) = 0
size_of (pos len) = len

-- With a length, of which no more than its value is used, and the place of the blank line.
unfoldable pub take_body : Bytes → ℤ → Option ℕ → Option Bytes
take_body response len none = none
take_body response len (some end_pos) =
    if body_holds (length response - end_pos - 4) len
    then some (take (size_of len) (drop (end_pos + 4) response))
    else none

unfoldable pub rest_of : Bytes → Option ℕ → Option Bytes
rest_of response none = none
rest_of response (some end_pos) = some (drop (end_pos + 4) response)

-- From the end of the line of Content-Length on; the name has fifteen characters.
unfoldable pub take_length : Bytes → ℕ → Option ℕ → Option Bytes
take_length response name_pos none = none
take_length response name_pos (some num_pos) =
    let len_str = take (num_pos - name_pos - 15) (drop (name_pos + 15) response) in
    take_body response (from_string_int32 len_str).1 (find (codes "\r\n\r\n") response)

unfoldable pub with_length : Bytes → Option ℕ → Option Bytes
with_length response none = rest_of response (find (codes "\r\n\r\n") response)
with_length response (some name_pos) =
    take_length response name_pos (find_from (codes "\r\n") (name_pos + 1) response)

-- The body, or none where the result is false.
unfoldable pub get_http_data : Bytes → Option Bytes
get_http_data response = with_length response (find (codes "Content-Length:") response)

abbrev pub common_headers : Bytes → Bytes
common_headers host =
    codes " HTTP/1.0\r\nAccept: */*\r\nAccept-Language: zh-cn\r\nUser-Agent: Mozilla/4.0\r\nHost: "
    ++ (host ++ codes "\r\nConnection: close\r\n")

abbrev pub with_query : Bytes → Bytes
with_query [] = []
with_query (c ∷ cs) = b'?' ∷ c ∷ cs

abbrev pub get_text : Target → Bytes
get_text t =
    codes "GET " ++ (t.page ++ (with_query t.parameter ++ (common_headers t.host ++ codes "\r\n")))

abbrev pub post_text : Target → Bytes
post_text t =
    codes "POST "
    ++ (t.page
        ++ (common_headers t.host
            ++ (codes "Content-Length:"
                ++ (to_string (length t.parameter) ++ (codes "\r\n\r\n" ++ t.parameter)))))
