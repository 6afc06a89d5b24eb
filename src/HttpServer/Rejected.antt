-- ===== src/HttpServer/Rejected.antt =====
-- HttpServer: for which input the answer is that of a bad request.
use knet_lib.Common.{
  ℕ, ◌==◌, ◌≡◌, refl, ap, ◌∙◌, List, [], ◌∷◌, ◌++◌, Option, none, some, Bool-cases, inl, inr, ◌≢◌,
  false≢true, Option-cases, sym,
}
use knet_lib.Text.{codes, same_text}
use knet_lib.HttpServer.{
  newline, HttpRequest, lines, onto_first, words, trim_front, trim_back, trim, parse, bad_request,
  page_of, respond,
}
use knet_lib.HttpServer.Written.{text-IsHeader}
use knet_lib.HttpServer.Responses.{Reading, read_response}
use knet_lib.HttpServer.Pages.{reading_of, error-read, respond-read}

bad_request-read :
    read_response (bad_request ++ [])
    ≡ some (record { status = codes "400"; content = []; left = [] })
unfolding bad_request words trim trim_front trim_back
bad_request-read =
    error-read (codes "HTTP/1.1 400 Bad Request") (codes "close") [] refl refl
      (text-IsHeader (codes "Connection") (codes "close") refl refl refl refl refl)

onto_first-some : (c : ℕ) (ls : List (List ℕ)) → onto_first c ls ≢ []
onto_first-some c [] e = absurd (cc)
onto_first-some c (l ∷ ls) e = absurd (cc)

lines-none : (raw : List ℕ) → lines raw ≡ [] → raw ≡ []
unfolding lines
lines-none [] e = refl
lines-none (c ∷ cs) e = elim (Bool-cases (c == newline)) [
  | inl f ↦ absurd (cc (rw f at e))
  | inr f ↦ absurd (onto_first-some c (lines cs) (rw f at e))
]

parse-none : (raw : List ℕ) (ls : List (List ℕ)) → lines raw ≡ ls → parse raw ≡ none → raw ≡ []
unfolding parse
parse-none raw [] same e = lines-none raw same
parse-none raw (l ∷ ls) same e = absurd (cc (rw (parse, same) at e))

abbrev page_status : Option (List ℕ × List ℕ) → List ℕ
page_status none = codes "404"
page_status (some page) = codes "200"

-- Neither is the status of a bad request.
page_status-apart : (page : Option (List ℕ × List ℕ)) → page_status page ≢ codes "400"
page_status-apart none e = false≢true (ap (λ text. same_text text (codes "400")) e)
page_status-apart (some page) e = false≢true (ap (λ text. same_text text (codes "400")) e)

found-status :
    (raw : List ℕ) (r : HttpRequest)
    → parse raw ≡ some r
    → (reading_of raw []).status ≡ page_status (page_of r.path)
unfolding reading_of
found-status raw r e = elim (Option-cases (page_of r.path)) [
  | inl f ↦ rw (reading_of, e, f) refl
  | inr (page, f) ↦ rw (reading_of, e, f) refl
]

abbrev status_of : Option Reading → List ℕ
status_of none = []
status_of (some r) = r.status

-- No text but the empty one is answered as a bad request: a message, which is never empty, gets a
-- page or "404 Not Found" whatever it says.
pub bad_request_unsent : (x : ℕ) (xs : List ℕ) → respond (x ∷ xs) ≢ bad_request
bad_request_unsent x xs h = elim (Option-cases (parse (x ∷ xs))) [
  | inl e ↦ absurd (cc (parse-none (x ∷ xs) (lines (x ∷ xs)) refl e))
  | inr (r, e) ↦
      let same =
        sym (respond-read (x ∷ xs) [])
        ∙ ap (λ text. read_response (text ++ [])) h
        ∙ bad_request-read in
      absurd
        (page_status-apart (page_of r.path) (sym (found-status (x ∷ xs) r e) ∙ ap status_of same))
]
