-- ===== src/Logger/Format.antt =====
-- include/knetlib/Logger.h: the text of a line. The time stamp, the process number and the text that
-- snprintf makes of the format are given.
use knet_lib.Common.{
  ℕ, zero, suc, ◌+◌, ◌-◌, ◌/◌, ◌%◌, ◌==◌, ◌≡◌, refl, Bool, false, List, [], ◌∷◌, ◌++◌, Option, none,
  some, length, take, replicate, if◌then◌else◌,
}

-- enum class LOG_LEVEL.
pub data Level : Type 0 where
  level_trace level_debug level_info level_warn level_error level_fatal : Level

abbrev pub rank : Level → ℕ
rank level_trace = 0
rank level_debug = 1
rank level_info = 2
rank level_warn = 3
rank level_error = 4
rank level_fatal = 5

-- "[ TRACE]" and the others.
abbrev pub level_text : Level → List ℕ
level_text level_trace = 91 ∷ 32 ∷ 84 ∷ 82 ∷ 65 ∷ 67 ∷ 69 ∷ 93 ∷ []
level_text level_debug = 91 ∷ 32 ∷ 68 ∷ 69 ∷ 66 ∷ 85 ∷ 71 ∷ 93 ∷ []
level_text level_info = 91 ∷ 32 ∷ 32 ∷ 73 ∷ 78 ∷ 70 ∷ 79 ∷ 93 ∷ []
level_text level_warn = 91 ∷ 32 ∷ 32 ∷ 87 ∷ 65 ∷ 82 ∷ 78 ∷ 93 ∷ []
level_text level_error = 91 ∷ 32 ∷ 69 ∷ 82 ∷ 82 ∷ 79 ∷ 82 ∷ 93 ∷ []
level_text level_fatal = 91 ∷ 32 ∷ 70 ∷ 65 ∷ 84 ∷ 65 ∷ 76 ∷ 93 ∷ []

abbrev slash : ℕ
slash = 47

-- What follows the last slash, where there is one: `strrchr`.
unfoldable pub after_slash : List ℕ → Option (List ℕ)
after_slash [] = none
after_slash (x ∷ xs) = elim (after_slash xs) [
  | none ↦ if x == slash then some xs else none
  | some rest ↦ some rest
]

unfoldable pub base_name : List ℕ → List ℕ
unfolding after_slash
base_name file = elim (after_slash file) [ none ↦ file | some rest ↦ rest ]

-- The decimal digits of an `int`, which has at most ten: `std::to_string`.
unfoldable pub digits : ℕ → ℕ → List ℕ
digits zero n = []
digits (suc fuel) n =
    let front = digits fuel (n / 10) in
    if n / 10 == 0 then (48 + n % 10) ∷ [] else front ++ (48 + n % 10) ∷ []

unfoldable pub to_string : ℕ → List ℕ
unfolding digits
to_string n = digits 10 n

-- `std::setw(5)` with spaces.
abbrev pub padded : List ℕ → List ℕ
padded ds = replicate (5 - length ds) 32 ++ ds

-- The characters that the array of 4096 holds, with the null character at their end.
abbrev pub fitting : List ℕ → List ℕ
fitting message = take 4095 message

-- One use of a macro: the source file and line, the time, and the text of its message.
pub record Call : Type 0 where
  pub level : Level
  pub file : List ℕ
  pub line : ℕ
  pub time_stamp : List ℕ
  pub message : List ℕ

-- The text that `logBase` makes, with "[", "]", " - ", ":" and the line's end.
unfoldable pub text_of : ℕ → Call → List ℕ
text_of pid c =
    c.time_stamp
    ++ 32 ∷ 91 ∷ []
    ++ padded (to_string pid)
    ++ 93 ∷ 32 ∷ []
    ++ level_text c.level
    ++ 32 ∷ []
    ++ fitting c.message
    ++ 32 ∷ 45 ∷ 32 ∷ []
    ++ base_name c.file
    ++ 58 ∷ []
    ++ to_string c.line
    ++ 10 ∷ []

-- The text that `logSys` makes: "[ SYSFA] " or "[SYSERR] ", and `reason`, which strerror gives.
unfoldable pub system_text_of : ℕ → Bool → List ℕ → Call → List ℕ
system_text_of pid to_abort reason c =
    c.time_stamp
    ++ 32 ∷ 91 ∷ []
    ++ padded (to_string pid)
    ++ 93 ∷ 32 ∷ []
    ++ (if to_abort
        then 91 ∷ 32 ∷ 83 ∷ 89 ∷ 83 ∷ 70 ∷ 65 ∷ 93 ∷ 32 ∷ []
        else 91 ∷ 83 ∷ 89 ∷ 83 ∷ 69 ∷ 82 ∷ 82 ∷ 93 ∷ 32 ∷ [])
    ++ fitting c.message
    ++ 58 ∷ 32 ∷ []
    ++ reason
    ++ 32 ∷ 45 ∷ 32 ∷ []
    ++ base_name c.file
    ++ 58 ∷ []
    ++ to_string c.line
    ++ 10 ∷ []

-- No slash stands in the list.
abbrev pub NoSlash : List ℕ → Type 0
NoSlash [] = Unit
NoSlash (x ∷ xs) = ((x == slash) ≡ false) × NoSlash xs

after_slash-none : (name : List ℕ) → NoSlash name → after_slash name ≡ none
unfolding after_slash
after_slash-none [] h = refl
after_slash-none (x ∷ xs) h = rw (after_slash-none xs h.1, h.0) refl

after_slash-some :
    (dir name : List ℕ) → NoSlash name → after_slash (dir ++ slash ∷ name) ≡ some name
unfolding after_slash
after_slash-some [] name h = rw (after_slash-none name h) refl
after_slash-some (x ∷ xs) name h = rw (after_slash-some xs name h) refl

-- The path of a file in a directory gives its name, and a name alone gives itself.
pub base_name_lem :
    (dir name : List ℕ)
    → NoSlash name
    → (base_name (dir ++ slash ∷ name) ≡ name) × (base_name name ≡ name)
unfolding base_name
base_name_lem dir name h =
    (rw (after_slash-some dir name h, base_name) refl, rw (after_slash-none name h, base_name) refl)
