-- ===== src/Factory/Names/Parse.antt =====
-- parseName takes a name apart that was put together from a type and its parameters.
use oink_judge.Prelude.{
  ℕ, suc, ◌+◌, ◌-◌, ◌<◌, true, false, ◌≡◌, refl, ap, ◌∙◌, [], ◌∷◌, ◌++◌, length, length-append, All,
  Outcome, ok, nat_eq, arith,
}
use oink_judge.Prelude.Integers.{pos}
use oink_judge.Factory.Names.{
  Text, is_among, is_space, find_first_symbol, normalize_from, normalize_argument, take, drop,
  parse_normalized, if_named, parse_name,
}
use oink_judge.Factory.Names.Balance.{IsPlain, Balanced, find-Balanced, normalize-Balanced}

-- A name of a type: no parentheses, backslashes or white space.
abbrev pub IsWord : Text → Type 0
IsWord = All (λ c. IsPlain c × (is_space c ≡ false))

pub find-outside :
    (c : ℕ) (symbols rest : Text)
    → IsPlain c
    → is_among c symbols ≡ false
    → find_first_symbol false (pos 0) symbols (c ∷ rest)
      ≡ suc (find_first_symbol false (pos 0) symbols rest)
unfolding find_first_symbol
find-outside c symbols rest (o, k, b) h = ground arith

pub take-append : (s t : Text) → take (length s) (s ++ t) ≡ s
take-append [] t = refl
take-append (c ∷ s) t = ap (λ r. c ∷ r) (take-append s t)

pub drop-append : (s : Text) (d : ℕ) (t : Text) → drop (suc (length s)) (s ++ d ∷ t) ≡ t
drop-append [] d t = refl
drop-append (c ∷ s) d t = drop-append s d t

module _ (symbol : ℕ) where
  find-IsWord :
      (name rest : Text)
      → IsWord name
      → ((c : ℕ) → IsPlain c → is_among c (symbol ∷ []) ≡ false)
      → find_first_symbol false (pos 0) (symbol ∷ []) (name ++ rest)
        ≡ length name + find_first_symbol false (pos 0) (symbol ∷ []) rest
  find-IsWord [] rest h k = omega arith
  find-IsWord (c ∷ name) rest h k = omega (
    arith,
    find-outside c (symbol ∷ []) (name ++ rest) h.0.0 (k c h.0.0),
    find-IsWord name rest h.1 k,
  )

normalize-outside :
    (c : ℕ) (rest : Text)
    → IsPlain c
    → is_space c ≡ false
    → normalize_from false (pos 0) true (c ∷ rest) ≡ c ∷ normalize_from false (pos 0) true rest
unfolding normalize_from
normalize-outside c rest (o, k, b) h = ground arith

normalize-IsWord :
    (name rest : Text)
    → IsWord name
    → normalize_from false (pos 0) true (name ++ rest)
      ≡ name ++ normalize_from false (pos 0) true rest
normalize-IsWord [] rest h = refl
normalize-IsWord (c ∷ name) rest h =
    normalize-outside c (name ++ rest) h.0.0 h.0.1
    ∙ ap (λ r. c ∷ r) (normalize-IsWord name rest h.1)

-- What the name of the factory's type and its parameters are put together to.
abbrev pub typed : Text → Text → Text
typed name params = name ++ b'(' ∷ (params ++ b')' ∷ [])

normalize-typed :
    (name params : Text)
    → IsWord name
    → Balanced params
    → normalize_argument (typed name params) true ≡ typed name params
unfolding normalize_argument normalize_from
normalize-typed name params h k =
    normalize-IsWord name (b'(' ∷ (params ++ b')' ∷ [])) h
    ∙ ap (λ r. name ++ b'(' ∷ r) (normalize-Balanced 0 (b')' ∷ []) k)

not_open : (c : ℕ) → IsPlain c → is_among c (b'(' ∷ []) ≡ false
not_open c (o, k, b) = ground arith

not_close : (c : ℕ) → IsPlain c → is_among c (b')' ∷ []) ≡ false
not_close c (o, k, b) = ground arith

find_open-typed :
    (name params : Text)
    → IsWord name
    → find_first_symbol false (pos 0) (b'(' ∷ []) (typed name params) ≡ length name
unfolding find_first_symbol
find_open-typed name params h =
    omega (arith, find-IsWord b'(' name (b'(' ∷ (params ++ b')' ∷ [])) h (λ c p. not_open c p))

find_close-typed :
    (name params : Text)
    → IsWord name
    → Balanced params
    → find_first_symbol false (pos 0) (b')' ∷ []) (typed name params)
      ≡ length name + suc (length params)
unfolding find_first_symbol
find_close-typed name params h k = omega (
  arith,
  find-IsWord b')' name (b'(' ∷ (params ++ b')' ∷ [])) h (λ c p. not_close c p),
  find-Balanced 0 (b')' ∷ []) (b')' ∷ []) k,
)

parse_normalized-typed :
    (name : Text) (left right size : ℕ)
    → left < right
    → right + 1 ≡ size
    → parse_normalized name left right size
      ≡ ok (take left name, take (right - left - 1) (drop (left + 1) name))
unfolding parse_normalized
parse_normalized-typed name left right size h e = ground arith

if_named-append :
    (name : Text) (c : ℕ) (rest : Text) (r : Outcome (Text × Text))
    → if_named (name ++ c ∷ rest) r ≡ r
if_named-append [] c rest r = refl
if_named-append (d ∷ name) c rest r = refl

length-typed :
    (name params : Text) → length (typed name params) ≡ length name + suc (length params + 1)
length-typed name params =
    omega
      (arith, length-append name (b'(' ∷ (params ++ b')' ∷ [])), length-append params (b')' ∷ []))

-- The two parts of the name, from where the parentheses are.
cut_typed :
    (name params : Text)
    → parse_normalized
        (typed name params)
        (length name)
        (length name + suc (length params))
        (length (typed name params))
      ≡ ok (name, params)
cut_typed name params =
    let width : length name + suc (length params) - length name - 1 ≡ length params = omega arith in
    let start : length name + 1 ≡ suc (length name) = omega arith in
    parse_normalized-typed (typed name params) (length name) (length name + suc (length params))
      (length (typed name params)) (omega arith) (omega (arith, length-typed name params))
    ∙ ap
        (λ r. ok (
          r,
          take (length name + suc (length params) - length name - 1)
              (drop (length name + 1) (typed name params)),
        ))
        (take-append name (b'(' ∷ (params ++ b')' ∷ [])))
    ∙ ap (λ w. ok (name, take w (drop (length name + 1) (typed name params)))) width
    ∙ ap (λ w. ok (name, take (length params) (drop w (typed name params)))) start
    ∙ ap (λ r. ok (name, take (length params) r)) (drop-append name b'(' (params ++ b')' ∷ []))
    ∙ ap (λ r. ok (name, r)) (take-append params (b')' ∷ []))

-- For a name without parentheses, backslashes and white space, and parameters without backslashes
-- in which the parentheses match: parseName of `name(params)` gives both back as they were, white
-- space in the parameters included.
pub parse_name-typed :
    (name params : Text)
    → IsWord name
    → Balanced params
    → parse_name (typed name params) ≡ ok (name, params)
unfolding parse_name
parse_name-typed name params h k =
    let whole = typed name params in
    ap
      (λ m. if_named m (
        parse_normalized m (find_first_symbol false (pos 0) (b'(' ∷ []) m)
          (find_first_symbol false (pos 0) (b')' ∷ []) m) (length m)))
      (normalize-typed name params h k)
    ∙ if_named-append name b'(' (params ++ b')' ∷ []) (
        parse_normalized whole (find_first_symbol false (pos 0) (b'(' ∷ []) whole)
          (find_first_symbol false (pos 0) (b')' ∷ []) whole) (length whole))
    ∙ ap
        (λ l.
          parse_normalized whole l (find_first_symbol false (pos 0) (b')' ∷ []) whole)
            (length whole))
        (find_open-typed name params h)
    ∙ ap (λ r. parse_normalized whole (length name) r (length whole))
        (find_close-typed name params h k)
    ∙ cut_typed name params
