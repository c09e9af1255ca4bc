-- ===== src/Factory/Names.antt =====
-- modules/shared/factory/include/oink_judge/factory/parameterized_type_factory.inl:
-- findFirstSymbol, normalizeArgument, parseName, parseParameters and create. A text is the list of
-- its bytes, an iterator its distance from the beginning.
pub mod Balance
pub mod Parse
pub mod Parameters
use oink_judge.Prelude.{
  ℕ, zero, suc, ◌+◌, ◌-◌, Bool, true, false, not, ◌&&◌, ◌||◌, Option, none, some, List, [], ◌∷◌,
  ◌++◌, length, if◌then◌else◌, ltb, leb, ◌==◌, nat_eq, Outcome, ok, thrown,
}
use oink_judge.Prelude.Integers.{ℤ, pos, negsuc, int_eq}

abbrev pub Text : Type 0
Text = List ℕ

-- `++balance` and `--balance`
abbrev pub next : ℤ → ℤ
next (pos n) = pos (suc n)
next (negsuc zero) = pos 0
next (negsuc (suc n)) = negsuc n

abbrev pub previous : ℤ → ℤ
previous (pos zero) = negsuc 0
previous (pos (suc n)) = pos n
previous (negsuc n) = negsuc (suc n)

abbrev pub is_positive : ℤ → Bool
is_positive (pos zero) = false
is_positive (pos (suc n)) = true
is_positive (negsuc n) = false

-- `symbols.find(c) != npos`
abbrev pub is_among : ℕ → Text → Bool
is_among c [] = false
is_among c (d ∷ symbols) = c == d || is_among c symbols

abbrev pub after_close : ℕ → ℤ → ℤ
after_close c balance = if c == b')' then previous balance else balance

abbrev pub after_open : ℕ → ℤ → ℤ
after_open c balance = if c == b'(' then next balance else balance

-- findFirstSymbol from an iterator on; the flag is set behind a backslash, whose next character is
-- skipped.
unfoldable pub find_first_symbol : Bool → ℤ → Text → Text → ℕ
find_first_symbol skipping balance symbols [] = 0
find_first_symbol true balance symbols (c ∷ cs) = suc (find_first_symbol false balance symbols cs)
find_first_symbol false balance symbols (c ∷ cs) =
    let closed = after_close c balance in
    let escaped = find_first_symbol true balance symbols cs in
    let further = find_first_symbol false (after_open c closed) symbols cs in
    if c == b'\\'
    then suc escaped
    else if is_among c symbols && closed == pos 0
    then 0
    else suc further

-- std::isspace
abbrev pub is_space : ℕ → Bool
is_space c = c == 32 || leb 9 c && leb c 13

-- normalizeArgument, likewise
unfoldable pub normalize_from : Bool → ℤ → Bool → Text → Text
normalize_from skipping balance remove_whitespaces [] = []
normalize_from true balance remove_whitespaces (c ∷ cs) =
    c ∷ normalize_from false balance remove_whitespaces cs
normalize_from false balance remove_whitespaces (c ∷ cs) =
    let counted =
      (if c == b'(' then next balance else if c == b')' then previous balance else balance) in
    let escaped = normalize_from true balance remove_whitespaces cs in
    let further = normalize_from false counted remove_whitespaces cs in
    if c == b'\\' && balance == pos 0
    then c ∷ escaped
    else if (not (is_space c) || is_positive counted) && remove_whitespaces
    then c ∷ further
    else further

unfoldable pub normalize_argument : Text → Bool → Text
unfolding normalize_from
normalize_argument name remove_whitespaces = normalize_from false (pos 0) remove_whitespaces name

-- `substr`
abbrev pub take : ℕ → Text → Text
take zero s = []
take (suc n) [] = []
take (suc n) (c ∷ s) = c ∷ take n s

abbrev pub drop : ℕ → Text → Text
drop zero s = s
drop (suc n) [] = []
drop (suc n) (c ∷ s) = drop n s

-- parseName behind normalizeArgument, with `left`, `right` and the size
unfoldable pub parse_normalized : Text → (left right size : ℕ) → Outcome (Text × Text)
parse_normalized name left right size =
    if left == right && left == size
    then ok (name, [])
    else if left == size || not (right == size - 1) || ltb right left
    then thrown "Invalid type name: "
    else ok (take left name, take (right - left - 1) (drop (left + 1) name))

abbrev pub if_named : Text → Outcome (Text × Text) → Outcome (Text × Text)
if_named [] rest = ok ([], [])
if_named (c ∷ name) rest = rest

-- parseName; the positions, which the source keeps in an int, are natural numbers.
unfoldable pub parse_name : Text → Outcome (Text × Text)
parse_name name =
    let normalized = normalize_argument name true in
    if_named normalized (
      parse_normalized normalized (find_first_symbol false (pos 0) (b'(' ∷ []) normalized)
        (find_first_symbol false (pos 0) (b')' ∷ []) normalized) (length normalized))

abbrev pub onto : Text → Option (List Text) → Option (List Text)
onto part none = none
onto part (some parts) = some (part ∷ parts)

-- One turn of the loop of parseParameters, with the place of the symbol; `begin` is not at the end.
abbrev pub parameter_turn : Text → ℕ → (Text → Option (List Text)) → Option (List Text)
parameter_turn params place rest =
    if place == length params
    then some (params ∷ [])
    else onto (take place params) (rest (drop (place + 1) params))

-- parseParameters; `none` if the fuel does not suffice.
unfoldable pub parameters_from : ℕ → Text → Text → Option (List Text)
unfolding find_first_symbol
parameters_from zero delimiters params = none
parameters_from (suc fuel) delimiters [] = some []
parameters_from (suc fuel) delimiters (c ∷ cs) =
    let rest = parameters_from fuel delimiters in
    parameter_turn (c ∷ cs) (find_first_symbol false (pos 0) delimiters (c ∷ cs)) rest

unfoldable pub parse_parameters : Text → Text → Option (List Text)
unfolding parameters_from
parse_parameters params delimiters = parameters_from (suc (length params)) delimiters params
