-- ===== src/HttpServer/Requests.antt =====
-- HttpServer: what `parse` makes of a request that is written the usual way.
use knet_lib.Common.{
  ℕ, ◌==◌, ◌≡◌, refl, sym, ◌∙◌, true, false, List, [], ◌∷◌, ◌++◌, Option, none, some, Bool-cases,
  inl, inr, append_assoc, &&-false, false≢true, if◌then◌else◌,
}
use knet_lib.Text.{same_text, same_text_refl, same_text_eq}
use knet_lib.HttpServer.{
  newline, colon, lines, words, word_or_empty, trim, split_colon, Headers, insert, lookup,
  with_line, is_end, parse_headers, HttpRequest, parse, line_then,
}
use knet_lib.HttpServer.Scanning.{
  IsFree, is_newline, is_colon, IsFree-append, IsWord, IsWord-line, lines-append, words-word,
  trim_around, split_colon-append,
}

-- A header the way it is written: the key, a colon, a space and the value.
abbrev pub header_line : List ℕ → List ℕ → List ℕ
header_line key value = key ++ colon ∷ 32 ∷ value

abbrev pub print_headers : Headers → List ℕ → List ℕ
print_headers [] body = line_then [] body
print_headers ((key, value) ∷ hs) body = line_then (header_line key value) (print_headers hs body)

abbrev pub print_request : List ℕ → List ℕ → List ℕ → Headers → List ℕ → List ℕ
print_request method path version hs body =
    line_then (method ++ 32 ∷ (path ++ 32 ∷ version)) (print_headers hs body)

-- The headers that come back as they are: no blanks around key and value, no colon in the key.
pub record IsHeader (key value : List ℕ) : Type 0 where
  pub key_trimmed : trim key ≡ key
  pub value_trimmed : trim value ≡ value
  pub no_colon : IsFree is_colon key
  pub key_line : IsFree is_newline key
  pub value_line : IsFree is_newline value

abbrev pub AllHeaders : Headers → Type 0
AllHeaders [] = Unit
AllHeaders ((key, value) ∷ hs) = IsHeader key value × AllHeaders hs

-- The last value of a key.
abbrev pub last_value : List ℕ → Headers → Option (List ℕ) → Option (List ℕ)
last_value key [] before = before
last_value key ((k, v) ∷ hs) before = last_value key hs (if same_text k key then some v else before)

with_line-header :
    (key value : List ℕ) (hs : Headers)
    → IsHeader key value
    → with_line (header_line key value ++ 13 ∷ []) hs ≡ insert key value hs
unfolding with_line
with_line-header key value hs h =
    let split : split_colon (header_line key value ++ 13 ∷ []) ≡ some (key, 32 ∷ value ++ 13 ∷ []) =
      rw (append_assoc key (colon ∷ 32 ∷ value) (13 ∷ []))
        (split_colon-append key (32 ∷ value ++ 13 ∷ []) h.no_colon) in
    rw (with_line, split, h.key_trimmed, trim_around value, h.value_trimmed) refl

-- A line with a colon in it is not the end of the headers.
pub is_end-header : (key value rest : List ℕ) → is_end ((header_line key value) ++ rest) ≡ false
is_end-header [] value rest = refl
is_end-header (c ∷ []) value rest = &&-false (c == 13)
is_end-header (c ∷ d ∷ ds) value rest = &&-false (c == 13)

-- A text that is another's differs from what the other differs from.
same_text-apart :
    (k key q : List ℕ) → same_text k key ≡ false → same_text k q ≡ true → same_text key q ≡ false
same_text-apart k key q e f = elim (Bool-cases (same_text key q)) [
  | inl g ↦
      let same : k ≡ key = same_text_eq k q f ∙ sym (same_text_eq key q g) in
      absurd (false≢true (sym e ∙ (rw same (same_text_refl key))))
  | inr g ↦ g
]

lookup-insert :
    (key value : List ℕ) (hs : Headers) (q : List ℕ)
    → lookup q (insert key value hs) ≡ (if same_text key q then some value else lookup q hs)
unfolding lookup insert
lookup-insert key value [] q = refl
lookup-insert key value ((k, v) ∷ hs) q = elim (Bool-cases (same_text k key)) [
  | inl e ↦ elim (Bool-cases (same_text key q)) [
    | inl f ↦ rw (e, same_text_eq k key e, f) refl
    | inr f ↦ rw (e, same_text_eq k key e, f) refl
  ]
  | inr e ↦ elim (Bool-cases (same_text k q)) [
    | inl f ↦ rw (e, f, same_text-apart k key q e f) refl
    | inr f ↦ rw (e, f) (lookup-insert key value hs q)
  ]
]

pub line_then-newline :
    (text rest : List ℕ) → line_then text rest ≡ (text ++ 13 ∷ []) ++ newline ∷ rest
line_then-newline text rest = simp append_assoc refl

pub header_line-IsFree :
    (k v : List ℕ) → IsHeader k v → IsFree is_newline (header_line k v ++ 13 ∷ [])
header_line-IsFree k v h =
    IsFree-append is_newline (header_line k v) (13 ∷ [])
      (IsFree-append is_newline k _ h.key_line (refl, (refl, h.value_line))) (refl, tt)

pub print_headers-lines :
    (hs : Headers) (body : List ℕ) (before : Headers)
    → AllHeaders hs
    → (q : List ℕ)
    → lookup q (parse_headers (lines (print_headers hs body)) before)
      ≡ last_value q hs (lookup q before)
unfolding parse_headers
print_headers-lines [] body before h q = rw (lines-append (13 ∷ []) body (refl, tt)) refl
print_headers-lines ((k, v) ∷ hs) body before h q =
    let rest = print_headers hs body in
    rw
      (
        line_then-newline (header_line k v) rest,
        lines-append (header_line k v ++ 13 ∷ []) rest (header_line-IsFree k v h.0),
        is_end-header k v (13 ∷ []),
        with_line-header k v before h.0,
        print_headers-lines hs body (insert k v before) h.1 q,
        lookup-insert k v before q,
      )
      refl

-- The headers are found whatever the first line is, and whatever follows them.
pub parse-lines :
    (first : List ℕ) (hs : Headers) (body : List ℕ)
    → IsFree is_newline first
    → parse (line_then first (print_headers hs body))
      ≡ some (record {
        method = word_or_empty (words (first ++ 13 ∷ [])) 0;
        path = word_or_empty (words (first ++ 13 ∷ [])) 1;
        version = word_or_empty (words (first ++ 13 ∷ [])) 2;
        headers = parse_headers (lines (print_headers hs body)) [];
        body = [];
      })
unfolding parse
parse-lines first hs body f =
    rw
      (
        line_then-newline first (print_headers hs body),
        parse,
        lines-append (first ++ 13 ∷ []) (print_headers hs body)
            (IsFree-append is_newline first (13 ∷ []) f (refl, tt)),
      )
      refl

-- The request that was parsed, by what it was written from.
pub record Parsed (method path version : List ℕ) (hs : Headers) (r : HttpRequest) : Type 0 where
  pub same_method : r.method ≡ method
  pub same_path : r.path ≡ path
  pub same_version : r.version ≡ version
  pub last_header : (key : List ℕ) → lookup key r.headers ≡ last_value key hs none
  pub no_body : r.body ≡ []

-- A request line of three words and headers without blanks around key and value, each ended by
-- "\r\n", an empty line and any text after it parse to these words and, under each key, the last
-- of its values; the body stays empty.
pub parse-print :
    (method path version : List ℕ) (hs : Headers) (body : List ℕ)
    → IsWord method
    → IsWord path
    → IsWord version
    → AllHeaders hs
    → (r : HttpRequest) × (parse (print_request method path version hs body) ≡ some r)
      × Parsed method path version hs r
unfolding words lookup
parse-print method path version hs body m p v h =
    let first = method ++ 32 ∷ (path ++ 32 ∷ version) in
    let free : IsFree is_newline first =
      IsFree-append is_newline method _ (IsWord-line method m) (
        refl,
        IsFree-append is_newline path _ (IsWord-line path p) (refl, IsWord-line version v),
      ) in
    let same : words (first ++ 13 ∷ []) ≡ method ∷ path ∷ version ∷ [] =
      rw
        (
          append_assoc method,
          append_assoc path,
          words-word method 32 _ m refl,
          words-word path 32 _ p refl,
          words-word version 13 [] v refl,
        )
        refl in
    (
      _,
      parse-lines first hs body free,
      record {
        same_method = rw same refl;
        same_path = rw same refl;
        same_version = rw same refl;
        last_header = λ key. print_headers-lines hs body [] h key;
        no_body = refl;
      },
    )
