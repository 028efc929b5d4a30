-- ===== src/Tasks/Chunks.antt =====
-- `_chunk` of app/discordbot/tasks.py, and that it loses nothing.
use mathlib.Core.List.{append-nil, append_assoc}
use receipt_manager.Prelude.{
  ℕ, ◌+◌, ◌≡◌, refl, ap, ◌∙◌, sym, true, List, [], ◌∷◌, ◌++◌, Text, length, ltb, ◌==◌, Bool-cases,
  inl, inr, if◌then◌else◌, arith,
}
use receipt_manager.Tasks.{join, joined, has_rows}

unfoldable pub add_char : ℕ → List Text → List Text
add_char c [] = (c ∷ []) ∷ []
add_char c (line ∷ lines) = (c ∷ line) ∷ lines

-- `text.split("\n")`
unfoldable pub split_lines : Text → List Text
split_lines [] = [] ∷ []
split_lines (c ∷ s) = let rest = split_lines s in if c == 10 then [] ∷ rest else add_char c rest

-- the loop of `_chunk`, with its `current` and `size`
unfoldable pub chunk_lines : ℕ → List Text → List Text → ℕ → List Text
chunk_lines limit [] [] size = []
chunk_lines limit [] (line ∷ current) size = joined (line ∷ current) ∷ []
chunk_lines limit (line ∷ lines) [] size =
    chunk_lines limit lines (line ∷ []) (size + length line + 1)
chunk_lines limit (line ∷ lines) (first ∷ current) size =
    let flushed = chunk_lines limit lines (line ∷ []) (length line + 1) in
    let longer = chunk_lines limit lines (first ∷ current ++ line ∷ []) (size + length line + 1) in
    if ltb limit (size + length line + 1) then joined (first ∷ current) ∷ flushed else longer

unfoldable pub chunk : Text → ℕ → List Text
chunk text limit = chunk_lines limit (split_lines text) [] 0

-- a line break between two parts that are not empty
joined-cons : (x y : Text) (ys : List Text) → joined (x ∷ y ∷ ys) ≡ x ++ 10 ∷ joined (y ∷ ys)
unfolding joined join
joined-cons x y ys = append_assoc x (10 ∷ []) (joined (y ∷ ys))

one_line : (line : Text) → joined (line ∷ []) ≡ line
unfolding joined join
one_line line = refl

joined-append :
    (x : Text) (xs : List Text) (y : Text) (ys : List Text)
    → joined (x ∷ xs ++ y ∷ ys) ≡ joined (x ∷ xs) ++ 10 ∷ joined (y ∷ ys)
unfolding joined join
joined-append x [] y ys = joined-cons x y ys
joined-append x (z ∷ zs) y ys =
    joined-cons x z (zs ++ y ∷ ys)
    ∙ ap (λ t. x ++ 10 ∷ t) (joined-append z zs y ys)
    ∙ sym (append_assoc x (10 ∷ joined (z ∷ zs)) (10 ∷ joined (y ∷ ys)))
    ∙ ap (λ t. t ++ 10 ∷ joined (y ∷ ys)) (sym (joined-cons x z zs))

joined-rows :
    (x : Text) (ys : List Text) → has_rows ys ≡ true → joined (x ∷ ys) ≡ x ++ 10 ∷ joined ys
joined-rows x [] h = cc
joined-rows x (y ∷ ys) h = joined-cons x y ys

chunk_lines-has_rows :
    (limit : ℕ) (lines : List Text) (first : Text) (current : List Text) (size : ℕ)
    → has_rows (chunk_lines limit lines (first ∷ current) size) ≡ true
unfolding chunk_lines
chunk_lines-has_rows limit [] first current size = refl
chunk_lines-has_rows limit (line ∷ lines) first current size =
    elim (Bool-cases (ltb limit (size + length line + 1))) [
      | inl full ↦ rw full refl
      | inr fits ↦ rw fits (chunk_lines-has_rows limit lines first (current ++ line ∷ []) _)
    ]

-- the lines that are still to come go behind the chunk that is begun
chunk_lines-joined :
    (limit : ℕ) (lines : List Text) (first : Text) (current : List Text) (size : ℕ)
    → joined (chunk_lines limit lines (first ∷ current) size) ≡ joined (first ∷ current ++ lines)
unfolding chunk_lines
chunk_lines-joined limit [] first current size =
    one_line (joined (first ∷ current)) ∙ ap (λ t. joined (first ∷ t)) (sym (append-nil current))
chunk_lines-joined limit (line ∷ lines) first current size =
    elim (Bool-cases (ltb limit (size + length line + 1))) [
      | inl full ↦ rw full (
          joined-rows (joined (first ∷ current))
            (chunk_lines limit lines (line ∷ []) (length line + 1))
            (chunk_lines-has_rows limit lines line [] (length line + 1))
          ∙ ap (λ t. joined (first ∷ current) ++ 10 ∷ t)
              (chunk_lines-joined limit lines line [] (length line + 1))
          ∙ sym (joined-append first current line lines))
      | inr fits ↦ rw fits (
          chunk_lines-joined limit lines first (current ++ line ∷ []) (size + length line + 1)
          ∙ ap (λ t. joined (first ∷ t)) (append_assoc current (line ∷ []) lines))
    ]

split_lines-has_rows : (s : Text) → has_rows (split_lines s) ≡ true
unfolding split_lines add_char
split_lines-has_rows [] = refl
split_lines-has_rows (c ∷ s) = ground (arith, split_lines-has_rows s)

add_char-joined :
    (c : ℕ) (lines : List Text)
    → has_rows lines ≡ true
    → joined (add_char c lines) ≡ c ∷ joined lines
unfolding joined join add_char
add_char-joined c [] h = cc
add_char-joined c (line ∷ []) h = refl
add_char-joined c (line ∷ next ∷ lines) h = refl

split_lines-joined : (s : Text) → joined (split_lines s) ≡ s
unfolding split_lines
split_lines-joined [] = one_line []
split_lines-joined (c ∷ s) = elim (Bool-cases (c == 10)) [
  | inl e ↦ rw e (
      joined-rows [] (split_lines s) (split_lines-has_rows s)
      ∙ ap (λ t. 10 ∷ t) (split_lines-joined s)
      ∙ ap (λ k. k ∷ s) (sym (ground (arith))))
  | inr e ↦ rw e (
      add_char-joined c (split_lines s) (split_lines-has_rows s)
      ∙ ap (λ t. c ∷ t) (split_lines-joined s))
]

start_chunks :
    (limit : ℕ) (lines : List Text)
    → has_rows lines ≡ true
    → joined (chunk_lines limit lines [] 0) ≡ joined lines
unfolding chunk_lines
start_chunks limit [] h = cc
start_chunks limit (line ∷ lines) h = chunk_lines-joined limit lines line [] (0 + length line + 1)

-- The messages that a long text is cut into are, with line breaks between them, the whole text:
-- nothing is lost, doubled or moved.
pub chunk-joined : (text : Text) (limit : ℕ) → joined (chunk text limit) ≡ text
unfolding chunk
chunk-joined text limit =
    start_chunks limit (split_lines text) (split_lines-has_rows text) ∙ split_lines-joined text
