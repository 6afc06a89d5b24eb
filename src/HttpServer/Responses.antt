-- ===== src/HttpServer/Responses.antt =====
-- HttpServer: a response as a client reads it: the status of the first line, the length that the
-- headers give, and that many characters after the line that ends them.
use knet_lib.Common.{
  ℕ, ◌==◌, ◌≡◌, refl, ap, ◌∙◌, false, List, [], ◌∷◌, ◌++◌, Option, none, some, length, append_assoc,
  append-nil, if◌then◌else◌, take, drop, take-append, drop-append,
}
use knet_lib.Text.{codes}
use knet_lib.InetAddress.Text.{read_decimal}
use knet_lib.HttpServer.{newline, words, word_or_empty, Headers, lookup, is_end, parse, line_then}
use knet_lib.HttpServer.Scanning.{IsFree, is_newline, IsFree-append}
use knet_lib.HttpServer.Requests.{
  print_headers, header_line, AllHeaders, last_value, is_end-header, parse-lines,
  print_headers-lines, line_then-newline, header_line-IsFree,
}

-- What follows the line that ends the headers; `line` is what was read of the present one.
unfoldable pub after_headers : List ℕ → List ℕ → List ℕ
after_headers line [] = []
after_headers line (c ∷ cs) =
    let next_line = after_headers [] cs in
    let same_line = after_headers (line ++ c ∷ []) cs in
    if c == newline then if is_end line then cs else next_line else same_line

-- A response as its client reads it, with the text that is left of the stream.
pub record Reading : Type 0 where
  pub status : List ℕ
  pub content : List ℕ
  pub left : List ℕ

unfoldable pub read_response : List ℕ → Option Reading
unfolding after_headers
read_response stream = elim (parse stream) [
  | none ↦ none
  | some r ↦ elim (lookup (codes "Content-Length") r.headers) [
    | none ↦ none
    | some size ↦
        let text = after_headers [] stream in
        some (record {
          status = r.path;
          content = take (read_decimal 0 size) text;
          left = drop (read_decimal 0 size) text;
        })
  ]
]

after_headers-line :
    (line l rest : List ℕ)
    → IsFree is_newline l
    → after_headers line (l ++ newline ∷ rest)
      ≡ (if is_end (line ++ l) then rest else after_headers [] rest)
unfolding after_headers
after_headers-line line [] rest f = simp append-nil refl
after_headers-line line (c ∷ cs) rest f =
    rw (f.0, after_headers-line (line ++ c ∷ []) cs rest f.1, append_assoc line) refl

after_headers-print :
    (hs : Headers) (body : List ℕ) → AllHeaders hs → after_headers [] (print_headers hs body) ≡ body
after_headers-print [] body h = after_headers-line [] (13 ∷ []) body (refl, tt)
after_headers-print ((k, v) ∷ hs) body h =
    let rest = print_headers hs body in
    rw
      (
        line_then-newline (header_line k v) rest,
        after_headers-line [] (header_line k v ++ 13 ∷ []) rest (header_line-IsFree k v h.0),
        is_end-header k v (13 ∷ []),
      )
      (after_headers-print hs body h.1)

print_headers-append :
    (hs : Headers) (body rest : List ℕ)
    → print_headers hs body ++ rest ≡ print_headers hs (body ++ rest)
print_headers-append [] body rest = refl
print_headers-append ((k, v) ∷ hs) body rest =
    append_assoc (header_line k v) _ rest
    ∙ ap (line_then (header_line k v)) (print_headers-append hs body rest)

-- A response whose headers give the length of its content.
pub read_response-print :
    (first : List ℕ) (hs : Headers) (content rest size : List ℕ)
    → IsFree is_newline first
    → is_end (first ++ 13 ∷ []) ≡ false
    → AllHeaders hs
    → last_value (codes "Content-Length") hs none ≡ some size
    → read_decimal 0 size ≡ length content
    → read_response (line_then first (print_headers hs content) ++ rest)
      ≡ some (record {
        status = word_or_empty (words (first ++ 13 ∷ [])) 1;
        content = content;
        left = rest;
      })
unfolding read_response lookup
read_response-print first hs content rest size f e h given same =
    let text : line_then first (print_headers hs content) ++ rest
        ≡ line_then first (print_headers hs (content ++ rest)) =
      append_assoc first _ rest ∙ ap (line_then first) (print_headers-append hs content rest) in
    let found = print_headers-lines hs (content ++ rest) [] h (codes "Content-Length") ∙ given in
    let after : after_headers [] (line_then first (print_headers hs (content ++ rest)))
        ≡ content ++ rest =
      rw
        (
          line_then-newline first (print_headers hs (content ++ rest)),
          after_headers-line [] (first ++ 13 ∷ []) (print_headers hs (content ++ rest))
              (IsFree-append is_newline first (13 ∷ []) f (refl, tt)),
          e,
        )
        (after_headers-print hs (content ++ rest) h) in
    ap read_response text
    ∙ rw
        (
          read_response,
          parse-lines first hs (content ++ rest) f,
          found,
          after,
          take-append content rest (read_decimal 0 size) same,
          drop-append content rest (read_decimal 0 size) same,
        )
        refl
