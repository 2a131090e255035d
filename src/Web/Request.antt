-- ===== src/Web/Request.antt =====
-- app/main.c, web_thread: `sscanf(req, "%15s %127s", method, path)`.
use edge_omni.Common.{
  ℕ, zero, suc, ◌≤◌, ◌<◌, ◌≡◌, ◌≢◌, ◌∙◌, refl, ap, arith, Bool, true, false, ◌||◌, Option, none,
  some, List, [], ◌∷◌, ◌++◌, ◌==◌, if◌then◌else◌, length, All,
}
use edge_omni.Common.Decimal.{is_space}

-- The text of a buffer ends at its first byte 0.
unfoldable pub c_string : List ℕ → List ℕ
c_string [] = []
c_string (b ∷ bs) = let rest = c_string bs in if b == 0 then [] else b ∷ rest

unfoldable pub skip_space : List ℕ → List ℕ
skip_space [] = []
skip_space (c ∷ cs) = let rest = skip_space cs in if is_space c then rest else c ∷ cs

-- `%ns` after the blanks: the bytes up to a blank, `n` at most, and what follows them.
unfoldable pub token : ℕ → List ℕ → List ℕ × List ℕ
token zero cs = ([], cs)
token (suc n) [] = ([], [])
token (suc n) (c ∷ cs) =
    let (t, rest) = token n cs in if is_space c then ([], c ∷ cs) else (c ∷ t, rest)

abbrev is_empty : List ℕ → Bool
is_empty [] = true
is_empty (c ∷ cs) = false

-- The method and the path, if sscanf returns 2.
unfoldable pub parse_request : List ℕ → Option (List ℕ × List ℕ)
unfolding c_string skip_space token
parse_request req =
    let (method, after) = token 15 (skip_space (c_string req)) in
    let (path, rest) = token 127 (skip_space after) in
    if is_empty method || is_empty path then none else some (method, path)

-- A byte of a word: no blank, and not the end of a text.
abbrev pub InWord : ℕ → Type 0
InWord c = (is_space c ≡ false) × (0 < c)

c_string-word : (w rest : List ℕ) → All InWord w → c_string (w ++ rest) ≡ w ++ c_string rest
unfolding c_string
c_string-word [] rest h = refl
c_string-word (c ∷ w) rest h =
    let positive : (c == 0) ≡ false = ground arith in
    rw positive (ap (◌∷◌ c) (c_string-word w rest h.1))

-- A word that fits is taken whole, up to a blank.
token-word :
    (n : ℕ) (w : List ℕ) (blank : ℕ) (rest : List ℕ)
    → All InWord w
    → length w ≤ n
    → is_space blank ≡ true
    → token n (w ++ blank ∷ rest) ≡ (w, blank ∷ rest)
unfolding token
token-word zero [] blank rest h fits stops = refl
token-word (suc n) [] blank rest h fits stops = rw stops refl
token-word zero (c ∷ w) blank rest h fits stops = absurd (omega arith)
token-word (suc n) (c ∷ w) blank rest h fits stops =
    rw (h.0.0, token-word n w blank rest h.1 (omega arith) stops) refl

skip_space-word : (w rest : List ℕ) → All InWord w → w ≢ [] → skip_space (w ++ rest) ≡ w ++ rest
unfolding skip_space
skip_space-word [] rest h some_byte = absurd (some_byte refl)
skip_space-word (c ∷ w) rest h some_byte = rw h.0.0 refl

not_empty : (w : List ℕ) → w ≢ [] → is_empty w ≡ false
not_empty [] h = absurd (h refl)
not_empty (c ∷ w) h = refl

-- A request line, whatever follows it.
abbrev pub request_line : (method path rest : List ℕ) → List ℕ
request_line method path rest = method ++ b' ' ∷ (path ++ b' ' ∷ rest)

pub parse_request-request_line :
    (method path rest : List ℕ)
    → All InWord method
    → All InWord path
    → method ≢ []
    → path ≢ []
    → length method ≤ 15
    → length path ≤ 127
    → parse_request (request_line method path rest) ≡ some (method, path)
unfolding parse_request c_string skip_space
parse_request-request_line method path rest m p m_some p_some m_fits p_fits =
    let after : List ℕ = path ++ b' ' ∷ c_string rest in
    let text : c_string (request_line method path rest) ≡ method ++ b' ' ∷ after =
      c_string-word method (b' ' ∷ (path ++ b' ' ∷ rest)) m
      ∙ ap (λ t. method ++ b' ' ∷ t) (c_string-word path (b' ' ∷ rest) p) in
    let first : token 15 (skip_space (c_string (request_line method path rest)))
        ≡ (method, b' ' ∷ after) =
      ap (λ t. token 15 (skip_space t)) text
      ∙ ap (token 15) (skip_space-word method (b' ' ∷ after) m m_some)
      ∙ token-word 15 method b' ' after m m_fits refl in
    let second : token 127 (skip_space (b' ' ∷ after)) ≡ (path, b' ' ∷ c_string rest) =
      ap (token 127) (skip_space-word path (b' ' ∷ c_string rest) p p_some)
      ∙ token-word 127 path b' ' (c_string rest) p p_fits refl in
    rw (first, second, not_empty method m_some, not_empty path p_some) refl
