-- ===== src/Fs/Vfs/Components.antt =====
-- A path cut at its slashes, as a specification of `get_next_token`.
use miyabi.Base.{
  ℕ, ◌≤◌, ◌<◌, ◌≡◌, ◌≢◌, ◌⊎◌, refl, arith, true, false, none, some, List, [], ◌∷◌, ◌++◌, ◌==◌,
  if◌then◌else◌, length, All, ap, sym, ◌∙◌, inl, inr, Bool-cases,
}
use mathlib.Core.List.{append_assoc, append-nil}
use miyabi.Fs.Vfs.{slash, skip_slashes, read_token, get_next_token}

-- A word that has ended is put in front, if it has characters.
unfoldable pub flush : List ℕ → List (List ℕ) → List (List ℕ)
flush [] words = words
flush (c ∷ cs) words = (c ∷ cs) ∷ words

-- The words of a path, the first of which goes on from `word`.
unfoldable pub words_from : List ℕ → List ℕ → List (List ℕ)
unfolding flush
words_from word [] = flush word []
words_from word (c ∷ cs) =
    let ended = words_from [] cs in
    let longer = words_from (word ++ c ∷ []) cs in if c == slash then flush word ended else longer

-- The names between the slashes of a path, without the empty ones.
abbrev pub components : List ℕ → List (List ℕ)
components path = words_from [] path

skip_bar : (c : ℕ) (cs : List ℕ) → (c == slash) ≡ true → skip_slashes (c ∷ cs) ≡ skip_slashes cs
unfolding skip_slashes
skip_bar c cs bar = rw (skip_slashes, bar)

skip_other : (c : ℕ) (cs : List ℕ) → (c == slash) ≡ false → skip_slashes (c ∷ cs) ≡ c ∷ cs
unfolding skip_slashes
skip_other c cs other = rw (skip_slashes, other)

words-skip_slashes : (path : List ℕ) → words_from [] (skip_slashes path) ≡ words_from [] path
unfolding words_from skip_slashes flush
words-skip_slashes [] = refl
words-skip_slashes (c ∷ cs) = elim (Bool-cases (c == slash)) [
  | inl bar ↦ ap (words_from []) (skip_bar c cs bar) ∙ words-skip_slashes cs ∙ rw (words_from, bar)
  | inr other ↦ ap (words_from []) (skip_other c cs other)
]

words-read_token :
    (word path : List ℕ)
    → words_from word path ≡ flush (word ++ (read_token path).0) (words_from [] (read_token path).1)
unfolding words_from read_token flush
words-read_token word [] = rw (append-nil word)
words-read_token word (c ∷ cs) = elim (Bool-cases (c == slash)) [
  | inl bar ↦ rw (bar, append-nil word) rw bar
  | inr other ↦
      rw other
        (words-read_token (word ++ c ∷ []) cs ∙ rw (append_assoc word (c ∷ []) (read_token cs).0))
]

length-read_token : (path : List ℕ) → length (read_token path).1 ≤ length path
unfolding read_token
length-read_token [] = omega arith
length-read_token (c ∷ cs) = elim (Bool-cases (c == slash)) [
  | inl bar ↦ rw bar (omega arith)
  | inr other ↦ rw other (omega (arith, length-read_token cs))
]

-- What is left of a path without its first slashes.
record Skipped (path : List ℕ) (c : ℕ) (cs : List ℕ) : Type 0 where
  other : (c == slash) ≡ false
  shorter : length (c ∷ cs) ≤ length path

skipped : (path : List ℕ) (c : ℕ) (cs : List ℕ) → skip_slashes path ≡ c ∷ cs → Skipped path c cs
unfolding skip_slashes
skipped [] c cs e = absurd (cc)
skipped (x ∷ xs) c cs e = elim (Bool-cases (x == slash)) [
  | inl bar ↦
      let s = skipped xs c cs (sym (skip_bar x xs bar) ∙ e) in
      record { other = s.other; shorter = omega (arith, s.shorter) }
  | inr other ↦
      let same : x ∷ xs ≡ c ∷ cs = sym (skip_other x xs other) ∙ e in
      let head : x ≡ c = cc same in
      record { other = rw (sym head) other; shorter = omega (arith, ap length same) }
]

-- The token and the rest of a path that has a token.
pub record NextToken (path token rest : List ℕ) : Type 0 where
  pub words : components path ≡ token ∷ components rest
  pub shorter : length rest < length path

no_token : (path : List ℕ) → skip_slashes path ≡ [] → components path ≡ []
unfolding words_from flush
no_token path e = sym (words-skip_slashes path) ∙ ap (words_from []) e

read_token-word :
    (c : ℕ) (cs : List ℕ)
    → (c == slash) ≡ false
    → (read_token (c ∷ cs)) ≡ (c ∷ (read_token cs).0, (read_token cs).1)
unfolding read_token
read_token-word c cs other = rw (read_token, other)

has_token :
    (path : List ℕ) (c : ℕ) (cs : List ℕ)
    → skip_slashes path ≡ c ∷ cs
    → NextToken path (read_token (c ∷ cs)).0 (read_token (c ∷ cs)).1
unfolding flush
has_token path c cs e =
    let s = skipped path c cs e in
    rw (read_token-word c cs s.other) (record {
      words =
          sym (words-skip_slashes path)
          ∙ ap (words_from []) e
          ∙ words-read_token [] (c ∷ cs)
          ∙ rw (read_token-word c cs s.other);
      shorter = omega (arith, s.shorter, length-read_token cs);
    })

-- A path that `get_next_token` finds no token in has no components; otherwise the token is the first
-- component, and the others are those of the rest, which is shorter.
pub get_next_token_lem :
    (path : List ℕ)
    → ((get_next_token path ≡ none) × (components path ≡ []))
      ⊎ ((token : List ℕ) × (rest : List ℕ) × (get_next_token path ≡ some (token, rest))
          × NextToken path token rest)
unfolding get_next_token
get_next_token_lem path = go (skip_slashes path) refl
  where
    go :
        (skip : List ℕ)
        → skip_slashes path ≡ skip
        → ((get_next_token path ≡ none) × (components path ≡ []))
          ⊎ ((token : List ℕ) × (rest : List ℕ) × (get_next_token path ≡ some (token, rest))
              × NextToken path token rest)
    go [] e = inl (rw (get_next_token, e), no_token path e)
    go (c ∷ cs) e = inr (
      (read_token (c ∷ cs)).0,
      (read_token (c ∷ cs)).1,
      rw (get_next_token, e),
      has_token path c cs e,
    )

-- A path of the given names, each behind a slash.
unfoldable pub join : List (List ℕ) → List ℕ
join [] = []
join (name ∷ names) = slash ∷ name ++ join names

-- A name that a path can hold: it has characters, and none is a slash.
abbrev pub IsName : List ℕ → Type 0
IsName name = (name ≢ []) × All (λ c. c ≢ slash) name

words-name :
    (word name path : List ℕ)
    → All (λ c. c ≢ slash) name
    → words_from word (name ++ slash ∷ path) ≡ flush (word ++ name) (words_from [] path)
unfolding words_from
words-name word [] path h = rw (append-nil word)
words-name word (c ∷ cs) path h =
    let other : (c == slash) ≡ false = ground (arith, h.0) in
    rw (words_from, other)
      (words-name (word ++ c ∷ []) cs path h.1 ∙ rw (append_assoc word (c ∷ []) cs))

words-last :
    (word name : List ℕ)
    → All (λ c. c ≢ slash) name
    → words_from word name ≡ flush (word ++ name) []
unfolding words_from
words-last word [] h = rw (append-nil word)
words-last word (c ∷ cs) h =
    let other : (c == slash) ≡ false = ground (arith, h.0) in
    rw (words_from, other) (words-last (word ++ c ∷ []) cs h.1 ∙ rw (append_assoc word (c ∷ []) cs))

flush-name : (name : List ℕ) (words : List (List ℕ)) → name ≢ [] → flush name words ≡ name ∷ words
unfolding flush
flush-name [] words h = absurd (h refl)
flush-name (c ∷ cs) words h = refl

words-join :
    (name : List ℕ) (names : List (List ℕ))
    → IsName name
    → All IsName names
    → words_from [] (name ++ join names) ≡ name ∷ names
unfolding join
words-join name [] h hs =
    ap (words_from []) (append-nil name) ∙ words-last [] name h.1 ∙ flush-name name [] h.0
words-join name (next ∷ names) h hs =
    words-name [] name (next ++ join names) h.1
    ∙ flush-name name (words_from [] (next ++ join names)) h.0
    ∙ ap (λ t. name ∷ t) (words-join next names hs.0 hs.1)

-- The components of a path that is written from names are the names.
pub components-join : (names : List (List ℕ)) → All IsName names → components (join names) ≡ names
unfolding join words_from flush
components-join [] h = refl
components-join (name ∷ names) h = words-join name names h.0 h.1
