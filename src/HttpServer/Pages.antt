-- ===== src/HttpServer/Pages.antt =====
-- HttpServer: the answers to all requests, read by a client.
use knet_lib.Common.{
  ℕ, ◌<◌, ◌≡◌, refl, true, false, List, [], ◌∷◌, ◌++◌, Option, none, some, length, Bool-cases, inl,
  inr, ltb→lt, ◌||◌,
}
use knet_lib.Text.{codes, same_text}
use knet_lib.InetAddress.Text.{read_decimal, decimal_bound, read_decimal-digits}
use knet_lib.HttpServer.{
  words, word_or_empty, trim_front, trim_back, trim, Headers, is_end, parse, line_then, size_text,
  generate_http_response, generate_html_response, not_found, bad_request, page_of, respond,
}
use knet_lib.HttpServer.Scanning.{all_free, IsFree-all, is_newline}
use knet_lib.HttpServer.Requests.{print_headers, IsHeader, AllHeaders}
use knet_lib.HttpServer.Written.{size_text-IsHeader, text-IsHeader}
use knet_lib.HttpServer.Responses.{Reading, read_response, read_response-print}

-- What the server means to answer: the status and the content.
unfoldable pub reading_of : List ℕ → List ℕ → Reading
reading_of raw left = elim (parse raw) [
  | none ↦ record { status = codes "400"; content = []; left = left }
  | some r ↦ elim (page_of r.path) [
    | none ↦ record { status = codes "404"; content = []; left = left }
    | some (content, content_type) ↦ record { status = codes "200"; content = content; left = left }
  ]
]

-- The headers of a page.
abbrev page_headers : List ℕ → List ℕ → Headers
page_headers content content_type =
    (codes "Content-Type", content_type)
    ∷ (codes "Content-Length", size_text (length content))
    ∷ (codes "Connection", codes "keep-alive")
    ∷ (codes "Server", codes "KnetLib/1.0")
    ∷ []

-- The headers of an answer without content.
abbrev error_headers : List ℕ → Headers
error_headers connection =
    (codes "Content-Type", codes "text/html")
    ∷ (codes "Content-Length", codes "0")
    ∷ (codes "Connection", connection)
    ∷ []

abbrev IsPage : Option (List ℕ × List ℕ) → Type 0
IsPage none = Unit
IsPage (some (content, content_type)) =
    (length content < decimal_bound 20) × IsHeader (codes "Content-Type") content_type

html-IsHeader : IsHeader (codes "Content-Type") (codes "text/html")
unfolding trim trim_front trim_back
html-IsHeader = text-IsHeader (codes "Content-Type") (codes "text/html") refl refl refl refl refl

page_of-IsPage : (path : List ℕ) → IsPage (page_of path)
unfolding page_of generate_html_response trim trim_front trim_back
page_of-IsPage path =
    elim (Bool-cases (same_text path (codes "/") || same_text path (codes "/index.html"))) [
      | inl a ↦ rw (page_of, a) (ltb→lt _ _ refl, html-IsHeader)
      | inr a ↦ elim (Bool-cases (same_text path (codes "/hello"))) [
        | inl b ↦ rw (page_of, a, b) (ltb→lt _ _ refl, html-IsHeader)
        | inr b ↦ elim (Bool-cases (same_text path (codes "/plain"))) [
          | inl c ↦
              rw (page_of, a, b, c)
                (
                  ltb→lt _ _ refl,
                  text-IsHeader (codes "Content-Type") (codes "text/plain") refl refl refl refl
                      refl,
                )
          | inr c ↦ elim (Bool-cases (same_text path (codes "/json"))) [
            | inl d ↦
                rw (page_of, a, b, c, d)
                  (
                    ltb→lt _ _ refl,
                    text-IsHeader (codes "Content-Type") (codes "application/json") refl refl refl
                        refl refl,
                  )
            | inr d ↦ rw (page_of, a, b, c, d) tt
          ]
        ]
      ]
    ]

read_decimal-size_text : (n : ℕ) → n < decimal_bound 20 → read_decimal 0 (size_text n) ≡ n
read_decimal-size_text n h = read_decimal-digits 20 n h

-- The line that a good response starts with.
abbrev ok_line : List ℕ
ok_line = codes "HTTP/1.1 200 OK"

page_headers-AllHeaders :
    (content content_type : List ℕ)
    → IsHeader (codes "Content-Type") content_type
    → AllHeaders (page_headers content content_type)
unfolding trim trim_front trim_back
page_headers-AllHeaders content content_type h =
    let kept : IsHeader (codes "Connection") (codes "keep-alive") =
      text-IsHeader (codes "Connection") (codes "keep-alive") refl refl refl refl refl in
    let named : IsHeader (codes "Server") (codes "KnetLib/1.0") =
      text-IsHeader (codes "Server") (codes "KnetLib/1.0") refl refl refl refl refl in
    (h, (size_text-IsHeader (length content), (kept, (named, tt))))

page-read :
    (content content_type rest : List ℕ)
    → IsPage (some (content, content_type))
    → read_response (generate_http_response content content_type ++ rest)
      ≡ some (record { status = codes "200"; content = content; left = rest })
unfolding generate_http_response words
page-read content content_type rest h =
    read_response-print ok_line (page_headers content content_type) content rest
      (size_text (length content)) (IsFree-all is_newline ok_line refl) refl
      (page_headers-AllHeaders content content_type h.1) refl
      (read_decimal-size_text (length content) h.0)

pub error-read :
    (first connection rest : List ℕ)
    → all_free is_newline first ≡ true
    → is_end (first ++ 13 ∷ []) ≡ false
    → IsHeader (codes "Connection") connection
    → read_response (line_then first (print_headers (error_headers connection) []) ++ rest)
      ≡ some (record {
        status = word_or_empty (words (first ++ 13 ∷ [])) 1;
        content = [];
        left = rest;
      })
unfolding trim trim_front trim_back
error-read first connection rest f e h =
    let sized : IsHeader (codes "Content-Length") (codes "0") =
      text-IsHeader (codes "Content-Length") (codes "0") refl refl refl refl refl in
    read_response-print first (error_headers connection) [] rest (codes "0")
      (IsFree-all is_newline first f) e (html-IsHeader, (sized, (h, tt))) refl refl

-- The answer to a request that was parsed.
found-read :
    (page : Option (List ℕ × List ℕ)) (rest : List ℕ)
    → IsPage page
    → read_response (
        elim page [
          | none ↦ not_found
          | some (content, content_type) ↦ generate_http_response content content_type
        ]
        ++ rest)
      ≡ some (elim page [
        | none ↦ record { status = codes "404"; content = []; left = rest }
        | some (content, content_type) ↦ record {
          status = codes "200";
          content = content;
          left = rest;
        }
      ])
unfolding not_found words trim trim_front trim_back
found-read none rest h =
    error-read (codes "HTTP/1.1 404 Not Found") (codes "keep-alive") rest refl refl
      (text-IsHeader (codes "Connection") (codes "keep-alive") refl refl refl refl refl)
found-read (some (content, content_type)) rest h = page-read content content_type rest h

-- Whatever text comes in, a client that reads the status of the first line of the answer, the
-- length that the headers give and that many characters after them, gets the status and the
-- content that the server means for this text, and is left at the start of what follows the
-- answer.
pub respond-read :
    (raw rest : List ℕ) → read_response (respond raw ++ rest) ≡ some (reading_of raw rest)
unfolding respond reading_of bad_request words trim trim_front trim_back
respond-read raw rest =
    elim (parse raw)
      as (λ o.
        read_response (
          elim o [
            | none ↦ bad_request
            | some request ↦ elim (page_of request.path) [
              | none ↦ not_found
              | some (content, content_type) ↦ generate_http_response content content_type
            ]
          ]
          ++ rest)
        ≡ some (elim o [
          | none ↦ record { status = codes "400"; content = []; left = rest }
          | some r ↦ elim (page_of r.path) [
            | none ↦ record { status = codes "404"; content = []; left = rest }
            | some (content, content_type) ↦ record {
              status = codes "200";
              content = content;
              left = rest;
            }
          ]
        ])) [
          | none ↦
              error-read (codes "HTTP/1.1 400 Bad Request") (codes "close") rest refl refl
                (text-IsHeader (codes "Connection") (codes "close") refl refl refl refl refl)
          | some r ↦ found-read (page_of r.path) rest (page_of-IsPage r.path)
        ]
