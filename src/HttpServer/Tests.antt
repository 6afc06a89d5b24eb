-- ===== src/HttpServer/Tests.antt =====
-- The theorems of HttpServer at concrete requests.
use knet_lib.Common.{◌≢◌, ◌≡◌, refl, [], ◌∷◌, ◌++◌, some}
use knet_lib.Text.{codes}
use knet_lib.HttpServer.{
  is_space, trim_front, trim_back, trim, Headers, HttpRequest, parse, page_of, respond, lines,
  words, parse_headers,
}
use knet_lib.HttpServer.{bad_request}
use knet_lib.HttpServer.Rejected.{bad_request_unsent}
use knet_lib.HttpServer.Scanning.{IsFree-all}
use knet_lib.HttpServer.Requests.{print_request, Parsed, AllHeaders, parse-print}
use knet_lib.HttpServer.Written.{text-IsHeader}
use knet_lib.HttpServer.Responses.{read_response}
use knet_lib.HttpServer.Pages.{reading_of, respond-read}

-- Two headers, one of them twice.
abbrev some_headers : Headers
some_headers =
    (codes "Host", codes "a b")
    ∷ (codes "Accept", codes "text/html")
    ∷ (codes "Host", codes "c:80")
    ∷ []

some_headers-AllHeaders : AllHeaders some_headers
unfolding trim trim_front trim_back
some_headers-AllHeaders = (
  text-IsHeader (codes "Host") (codes "a b") refl refl refl refl refl,
  (
    text-IsHeader (codes "Accept") (codes "text/html") refl refl refl refl refl,
    (text-IsHeader (codes "Host") (codes "c:80") refl refl refl refl refl, tt),
  ),
)

parse-print_example :
    (r : HttpRequest) × (parse
        (print_request (codes "GET") (codes "/hello") (codes "HTTP/1.1") some_headers (codes "x"))
      ≡ some r)
    × Parsed (codes "GET") (codes "/hello") (codes "HTTP/1.1") some_headers r
parse-print_example =
    parse-print (codes "GET") (codes "/hello") (codes "HTTP/1.1") some_headers (codes "x")
      (IsFree-all is_space (codes "GET") refl) (IsFree-all is_space (codes "/hello") refl)
      (IsFree-all is_space (codes "HTTP/1.1") refl) some_headers-AllHeaders

respond-read_example :
    read_response (respond (codes "GET /plain HTTP/1.1\r\n\r\n") ++ codes "HTTP")
    ≡ some (reading_of (codes "GET /plain HTTP/1.1\r\n\r\n") (codes "HTTP"))
respond-read_example = respond-read (codes "GET /plain HTTP/1.1\r\n\r\n") (codes "HTTP")

plain_content :
    reading_of (codes "GET /plain HTTP/1.1\r\n\r\n") []
    ≡ record { status = codes "200"; content = codes "OK"; left = [] }
unfolding reading_of parse page_of lines words parse_headers
plain_content = refl

-- No request at all.
bad_request_unsent_example : respond (codes "no request") ≢ bad_request
bad_request_unsent_example = bad_request_unsent 110 (codes "o request")
