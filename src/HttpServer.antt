-- ===== src/HttpServer.antt =====
-- examples/benchmark_server.cpp: a small HTTP server. `parse` and the responses, on texts as lists of
-- characters; what the streams and strings of the standard library do is written out.
pub mod Scanning
pub mod Requests
pub mod Written
pub mod Responses
pub mod Pages
pub mod Rejected
mod Tests
use knet_lib.Common.{
  ℕ, ◌==◌, Bool, true, false, not, ◌&&◌, ◌||◌, List, [], ◌∷◌, ◌++◌, Option, none, some, zero, suc,
  length, if◌then◌else◌,
}
use knet_lib.Text.{codes, same_text}
use knet_lib.Logger.Format.{digits}

abbrev pub newline : ℕ
newline = 10

abbrev pub colon : ℕ
colon = 58

-- The characters that `>>` skips, and those that are cut off a header's key and value.
abbrev pub is_space : ℕ → Bool
is_space c = c == 32 || (c == 9 || (c == 10 || (c == 11 || (c == 12 || c == 13))))

abbrev pub is_blank : ℕ → Bool
is_blank c = c == 32 || (c == 9 || (c == 13 || c == 10))

abbrev pub is_empty {ℓ} : {A : Type ℓ} → List A → Bool
is_empty [] = true
is_empty (x ∷ xs) = false

abbrev pub onto_first : ℕ → List (List ℕ) → List (List ℕ)
onto_first c [] = (c ∷ []) ∷ []
onto_first c (l ∷ ls) = (c ∷ l) ∷ ls

-- What `std::getline` gives call by call; it fails where no character is left.
unfoldable pub lines : List ℕ → List (List ℕ)
lines [] = []
lines (c ∷ cs) = let rest = lines cs in if c == newline then [] ∷ rest else onto_first c rest

abbrev pub begins_word : List ℕ → Bool
begins_word [] = false
begins_word (c ∷ cs) = not (is_space c)

-- What `>>` into a string gives call by call.
unfoldable pub words : List ℕ → List (List ℕ)
words [] = []
words (c ∷ cs) =
    let rest = words cs in
    if is_space c then rest else if begins_word cs then onto_first c rest else (c ∷ []) ∷ rest

-- A word that is not there leaves the string empty.
abbrev pub word_or_empty : List (List ℕ) → ℕ → List ℕ
word_or_empty [] n = []
word_or_empty (w ∷ ws) zero = w
word_or_empty (w ∷ ws) (suc n) = word_or_empty ws n

unfoldable pub trim_front : List ℕ → List ℕ
trim_front [] = []
trim_front (c ∷ cs) = let rest = trim_front cs in if is_blank c then rest else c ∷ cs

unfoldable pub trim_back : List ℕ → List ℕ
trim_back [] = []
trim_back (c ∷ cs) = let rest = trim_back cs in if is_blank c && is_empty rest then [] else c ∷ rest

unfoldable pub trim : List ℕ → List ℕ
unfolding trim_front trim_back
trim text = trim_back (trim_front text)

-- The text before and after the first colon.
unfoldable pub split_colon : List ℕ → Option (List ℕ × List ℕ)
split_colon [] = none
split_colon (c ∷ cs) =
    if c == colon
    then some ([], cs)
    else elim (split_colon cs) [ none ↦ none | some (key, value) ↦ some (c ∷ key, value) ]

abbrev pub Headers : Type 0
Headers = List (List ℕ × List ℕ)

-- `headers[key] = value`.
unfoldable pub insert : List ℕ → List ℕ → Headers → Headers
insert key value [] = (key, value) ∷ []
insert key value ((k, v) ∷ hs) =
    let rest = insert key value hs in if same_text k key then (k, value) ∷ hs else (k, v) ∷ rest

unfoldable pub lookup : List ℕ → Headers → Option (List ℕ)
lookup key [] = none
lookup key ((k, v) ∷ hs) = let rest = lookup key hs in if same_text k key then some v else rest

unfoldable pub with_line : List ℕ → Headers → Headers
unfolding split_colon trim insert
with_line line hs = elim (split_colon line) [
  | none ↦ hs
  | some (key, value) ↦ insert (trim key) (trim value) hs
]

-- The line that ends the headers: "\r", or nothing.
abbrev pub is_end : List ℕ → Bool
is_end line = is_empty line || same_text line (13 ∷ [])

unfoldable pub parse_headers : List (List ℕ) → Headers → Headers
unfolding with_line
parse_headers [] hs = hs
parse_headers (line ∷ rest) hs =
    let more = parse_headers rest (with_line line hs) in if is_end line then hs else more

pub record HttpRequest : Type 0 where
  pub method : List ℕ
  pub path : List ℕ
  pub version : List ℕ
  pub headers : Headers
  pub body : List ℕ

-- `none` where `parse` returns false.
unfoldable pub parse : List ℕ → Option HttpRequest
unfolding lines words parse_headers
parse raw = elim (lines raw) [
  | [] ↦ none
  | line ∷ rest ↦ some (record {
    method = word_or_empty (words line) 0;
    path = word_or_empty (words line) 1;
    version = word_or_empty (words line) 2;
    headers = parse_headers rest [];
    body = [];
  })
]

-- `<< text << "\r\n"`, and what is put after it.
abbrev pub line_then : List ℕ → List ℕ → List ℕ
line_then text rest = text ++ 13 ∷ 10 ∷ rest

-- The decimal digits of a size_t, which has at most twenty.
abbrev pub size_text : ℕ → List ℕ
size_text n = digits 20 n

unfoldable pub generate_http_response : List ℕ → List ℕ → List ℕ
generate_http_response content content_type = line_then (codes "HTTP/1.1 200 OK") (
    line_then (codes "Content-Type: " ++ content_type) (
      line_then (codes "Content-Length: " ++ size_text (length content)) (
        line_then (codes "Connection: keep-alive")
          (line_then (codes "Server: KnetLib/1.0") (line_then [] content)))))

unfoldable pub generate_html_response : List ℕ → List ℕ → List ℕ
generate_html_response title body =
    codes "<!DOCTYPE html>\n<html><head><title>"
    ++ (title
        ++ (codes "</title></head>\n<body><h1>"
            ++ (title ++ (codes "</h1>\n<p>" ++ (body ++ codes "</p>\n</body></html>\n")))))

unfoldable pub not_found : List ℕ
not_found = line_then (codes "HTTP/1.1 404 Not Found") (
    line_then (codes "Content-Type: text/html") (
      line_then (codes "Content-Length: 0")
        (line_then (codes "Connection: keep-alive") (line_then [] []))))

unfoldable pub bad_request : List ℕ
bad_request = line_then (codes "HTTP/1.1 400 Bad Request") (
    line_then (codes "Content-Type: text/html") (
      line_then (codes "Content-Length: 0")
        (line_then (codes "Connection: close") (line_then [] []))))

-- The content for a path, and its type.
unfoldable pub page_of : List ℕ → Option (List ℕ × List ℕ)
unfolding generate_html_response
page_of path =
    if same_text path (codes "/") || same_text path (codes "/index.html")
    then some (
      generate_html_response (codes "KnetLib Performance Test")
          (codes "Welcome to KnetLib HTTP Server Performance Test"),
      codes "text/html",
    )
    else if same_text path (codes "/hello")
    then some
        (generate_html_response (codes "Hello") (codes "Hello from KnetLib!"), codes "text/html")
    else if same_text path (codes "/plain")
    then some (codes "OK", codes "text/plain")
    else if same_text path (codes "/json")
    then some (
      codes "{\"status\":\"ok\",\"message\":\"KnetLib Performance Test\"}",
      codes "application/json",
    )
    else none

-- What the message callback sends for the text that it took out of the buffer.
unfoldable pub respond : List ℕ → List ℕ
unfolding parse page_of generate_http_response not_found bad_request
respond raw = elim (parse raw) [
  | none ↦ bad_request
  | some request ↦ elim (page_of request.path) [
    | none ↦ not_found
    | some (content, content_type) ↦ generate_http_response content content_type
  ]
]
