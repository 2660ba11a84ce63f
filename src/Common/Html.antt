-- ===== src/Common/Html.antt =====
-- common/html.util.ts: a text in a hand-written HTML email. A text is the list of its code points.
use betti_coaching_calendar.Prelude.{
  ℕ, zero, suc, ◌≤◌, length, Option, none, some, ◌≡◌, refl, sym, ap, ◌∙◌, Bool, true, not, ◌&&◌,
  ◌==◌, List, [], ◌∷◌, ◌++◌, append_assoc, All, All-append, if◌then◌else◌, Bool-cases, inl, inr,
  arith,
}
use betti_coaching_calendar.Settings.Palette.{codes}

-- `text.replace(/c/g, by)`
pub replace : ℕ → List ℕ → List ℕ → List ℕ
replace c by [] = []
replace c by (x ∷ xs) = (if x == c then by else x ∷ []) ++ replace c by xs

abbrev pub amp : List ℕ
amp = codes "&amp;"

abbrev pub lt : List ℕ
lt = codes "&lt;"

abbrev pub gt : List ℕ
gt = codes "&gt;"

abbrev pub quot : List ℕ
quot = codes "&quot;"

unfoldable pub escape_html : List ℕ → List ℕ
unfolding replace
escape_html text = replace b'"' quot (replace b'>' gt (replace b'<' lt (replace b'&' amp text)))

-- what stands for one character
abbrev entity : ℕ → List ℕ
entity x =
    if x == b'&'
    then amp
    else if x == b'<'
    then lt
    else if x == b'>'
    then gt
    else if x == b'"'
    then quot
    else x ∷ []

-- what a reader of HTML makes of a text: `strip` takes a prefix off, and the four entities are read
-- back. Each round reads one character.
abbrev strip : List ℕ → List ℕ → Option (List ℕ)
strip [] text = some text
strip (c ∷ cs) [] = none
strip (c ∷ cs) (x ∷ xs) = if x == c then strip cs xs else none

abbrev next : List ℕ → Option (ℕ × List ℕ)
next [] = none
next (x ∷ xs) = some (x, xs)

abbrev first : Option (List ℕ) → ℕ → Option (ℕ × List ℕ) → Option (ℕ × List ℕ)
first none c rest = rest
first (some after) c rest = some (c, after)

abbrev read_character : List ℕ → Option (ℕ × List ℕ)
read_character text = first (strip amp text) b'&' (
    first (strip lt text) b'<'
      (first (strip gt text) b'>' (first (strip quot text) b'"' (next text))))

abbrev continue : Option (ℕ × List ℕ) → (List ℕ → List ℕ) → List ℕ
continue none read = []
continue (some (x, rest)) read = x ∷ read rest

pub read_html : ℕ → List ℕ → List ℕ
read_html zero text = []
read_html (suc rounds) text = continue (read_character text) (read_html rounds)

replace-append :
    (c : ℕ) (by xs ys : List ℕ) → replace c by (xs ++ ys) ≡ replace c by xs ++ replace c by ys
unfolding replace
replace-append c by [] ys = refl
replace-append c by (x ∷ xs) ys =
    ap (λ zs. (if x == c then by else x ∷ []) ++ zs) (replace-append c by xs ys)
    ∙ sym (append_assoc (if x == c then by else x ∷ []) (replace c by xs) (replace c by ys))

-- what the four replacements make of one character
piece : ℕ → List ℕ
unfolding replace
piece x = replace b'"' quot (replace b'>' gt (replace b'<' lt (if x == b'&' then amp else x ∷ [])))

piece-eq-entity : (x : ℕ) → piece x ≡ entity x
unfolding piece
piece-eq-entity x = elim (Bool-cases (x == b'&')) [
  | inl a ↦ rw a refl
  | inr a ↦ elim (Bool-cases (x == b'<')) [
    | inl b ↦ rw (a, b) refl
    | inr b ↦ elim (Bool-cases (x == b'>')) [
      | inl c ↦ rw (a, b, c) refl
      | inr c ↦ elim (Bool-cases (x == b'"')) [
        | inl d ↦ rw (a, b, c, d) refl
        | inr d ↦ rw (a, b, c, d) refl
      ]
    ]
  ]
]

escape_html-cons : (x : ℕ) (xs : List ℕ) → escape_html (x ∷ xs) ≡ entity x ++ escape_html xs
unfolding escape_html
escape_html-cons x xs =
    let a = if x == b'&' then amp else x ∷ [] in
    let r = replace b'&' amp xs in
    ap (λ zs. replace b'"' quot (replace b'>' gt zs)) (replace-append b'<' lt a r)
    ∙ ap (replace b'"' quot) (replace-append b'>' gt (replace b'<' lt a) (replace b'<' lt r))
    ∙ replace-append b'"' quot (replace b'>' gt (replace b'<' lt a))
        (replace b'>' gt (replace b'<' lt r))
    ∙ ap (λ zs. zs ++ replace b'"' quot (replace b'>' gt (replace b'<' lt r))) (shut x)
  where
    shut :
        (x : ℕ)
        → replace b'"' quot (replace b'>' gt (replace b'<' lt (if x == b'&' then amp else x ∷ [])))
          ≡ entity x
    shut x = unfold piece in piece-eq-entity x

-- the characters that end a text or an attribute of HTML
abbrev pub is_plain : ℕ → Bool
is_plain x = not (x == b'<') && not (x == b'>') && not (x == b'"')

entity-plain : (x : ℕ) → All (λ y. is_plain y ≡ true) (entity x)
entity-plain x = elim (Bool-cases (x == b'&')) [
  | inl a ↦ rw a (refl, (refl, (refl, (refl, (refl, tt)))))
  | inr a ↦ elim (Bool-cases (x == b'<')) [
    | inl b ↦ rw (a, b) (refl, (refl, (refl, (refl, tt))))
    | inr b ↦ elim (Bool-cases (x == b'>')) [
      | inl c ↦ rw (a, b, c) (refl, (refl, (refl, (refl, tt))))
      | inr c ↦ elim (Bool-cases (x == b'"')) [
        | inl d ↦ rw (a, b, c, d) (refl, (refl, (refl, (refl, (refl, (refl, tt))))))
        | inr d ↦ rw (a, b, c, d) (rw (b, c, d) refl, tt)
      ]
    ]
  ]
]

pub escape_html-plain : (text : List ℕ) → All (λ y. is_plain y ≡ true) (escape_html text)
escape_html-plain [] = unfold escape_html in tt
escape_html-plain (x ∷ xs) = rw (escape_html-cons x xs) (
    All-append (λ y. is_plain y ≡ true) (entity x) (escape_html xs) (entity-plain x)
      (escape_html-plain xs))

read_character-entity : (x : ℕ) (rest : List ℕ) → read_character (entity x ++ rest) ≡ some (x, rest)
read_character-entity x rest = elim (Bool-cases (x == b'&')) [
  | inl a ↦ rw a (ground (arith, a))
  | inr a ↦ elim (Bool-cases (x == b'<')) [
    | inl b ↦ rw (a, b) (ground (arith, b))
    | inr b ↦ elim (Bool-cases (x == b'>')) [
      | inl c ↦ rw (a, b, c) (ground (arith, c))
      | inr c ↦ elim (Bool-cases (x == b'"')) [
        | inl d ↦ rw (a, b, c, d) (ground (arith, d))
        | inr d ↦ rw (a, b, c, d) (rw a refl)
      ]
    ]
  ]
]

read_html-escape_html :
    (rounds : ℕ) (text : List ℕ) → length text ≤ rounds → read_html rounds (escape_html text) ≡ text
unfolding read_html
read_html-escape_html zero [] h = refl
read_html-escape_html zero (x ∷ xs) h = absurd (omega arith)
read_html-escape_html (suc rounds) [] h = unfold escape_html in refl
read_html-escape_html (suc rounds) (x ∷ xs) h =
    rw (escape_html-cons x xs, read_character-entity x (escape_html xs))
      (ap (λ ys. x ∷ ys) (read_html-escape_html rounds xs (omega arith)))

-- An escaped text has none of the characters `<`, `>` and `"`, so that it ends neither the text nor
-- the attribute in which it stands, and HTML reads it back as the text that it was.
pub escape_html_safe :
    (rounds : ℕ) (text : List ℕ)
    → length text ≤ rounds
    → All (λ y. is_plain y ≡ true) (escape_html text) × (read_html rounds (escape_html text) ≡ text)
escape_html_safe rounds text h = (escape_html-plain text, read_html-escape_html rounds text h)
