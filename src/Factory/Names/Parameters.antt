-- ===== src/Factory/Names/Parameters.antt =====
-- parseParameters takes a list of parameters apart.
use mathlib.Core.List.{append-nil}
use oink_judge.Prelude.{
  ℕ, zero, suc, ◌+◌, ◌<◌, true, false, ◌≡◌, ◌≢◌, refl, sym, ap, ◌∙◌, Option, some, List, [], ◌∷◌,
  ◌++◌, length, length-append, ◌==◌, nat_eq, arith,
}
use oink_judge.Prelude.Integers.{pos}
use oink_judge.Factory.Names.{
  Text, is_among, find_first_symbol, take, drop, onto, parameter_turn, parameters_from,
  parse_parameters,
}
use oink_judge.Factory.Names.Balance.{IsPlain, Balanced, find-Balanced, group_length}
use oink_judge.Factory.Names.Parse.{find-outside, take-append, drop-append}

-- A parameter: text without backslashes in which the parentheses match, and in which the delimiter
-- stands only inside parentheses.
pub data Parameter (d : ℕ) : Text → Type 0 where
  ends : Parameter d []
  char : {c : ℕ} {cs : Text} → IsPlain c → (c == d) ≡ false → Parameter d cs → Parameter d (c ∷ cs)
  nested :
      {inner rest s : Text}
      → Balanced inner
      → Parameter d rest
      → s ≡ b'(' ∷ (inner ++ b')' ∷ rest)
      → Parameter d s

-- At least one parameter, and the last one is not empty.
pub data Parameters (d : ℕ) : List Text → Type 0 where
  one : {p : Text} → Parameter d p → p ≢ [] → Parameters d (p ∷ [])
  another :
      {p q : Text} {ps : List Text}
      → Parameter d p
      → Parameters d (q ∷ ps)
      → Parameters d (p ∷ q ∷ ps)

abbrev pub joined : ℕ → List Text → Text
joined d [] = []
joined d (p ∷ []) = p
joined d (p ∷ q ∷ ps) = p ++ d ∷ joined d (q ∷ ps)

module _ (d : ℕ) (delimiter : IsPlain d) where
  among_self : is_among d (d ∷ []) ≡ true
  among_self = ground arith

  find-delimiter : (rest : Text) → find_first_symbol false (pos 0) (d ∷ []) (d ∷ rest) ≡ 0
  unfolding find_first_symbol
  find-delimiter rest =
      let o = delimiter.0 in
      let k = delimiter.1 in let b = delimiter.2 in ground (arith, among_self)

  find-open0 :
      (rest : Text)
      → find_first_symbol false (pos 0) (d ∷ []) (b'(' ∷ rest)
        ≡ suc (find_first_symbol false (pos 1) (d ∷ []) rest)
  unfolding find_first_symbol
  find-open0 rest = let o = delimiter.0 in ground arith

  find-close1 :
      (rest : Text)
      → find_first_symbol false (pos 1) (d ∷ []) (b')' ∷ rest)
        ≡ suc (find_first_symbol false (pos 0) (d ∷ []) rest)
  unfolding find_first_symbol
  find-close1 rest = let k = delimiter.1 in ground arith

  find-Parameter :
      {s : Text} (rest : Text)
      → Parameter d s
      → find_first_symbol false (pos 0) (d ∷ []) (s ++ rest)
        ≡ length s + find_first_symbol false (pos 0) (d ∷ []) rest
  find-Parameter rest ends = omega arith
  find-Parameter rest (char {c} {cs} p o h) =
      omega (arith, find-outside c (d ∷ []) (cs ++ rest) p (rw o refl), find-Parameter rest h)
  find-Parameter rest (nested {inner = inner} {rest = others} {s = s} h k e) = rw e (
      omega (
        arith,
        find-open0 ((inner ++ b')' ∷ others) ++ rest),
        ap (find_first_symbol false (pos 1) (d ∷ [])) (group_length inner others rest),
        find-Balanced 0 (d ∷ []) (b')' ∷ (others ++ rest)) h,
        find-close1 (others ++ rest),
        find-Parameter rest k,
        length-append inner (b')' ∷ others),
      ))

  parameters_from-turn :
      (fuel : ℕ) (s : Text)
      → s ≢ []
      → parameters_from (suc fuel) (d ∷ []) s
        ≡ parameter_turn s
            (find_first_symbol false (pos 0) (d ∷ []) s)
            (parameters_from fuel (d ∷ []))
  unfolding parameters_from
  parameters_from-turn fuel [] h = absurd (h refl)
  parameters_from-turn fuel (c ∷ cs) h = refl

  last_turn :
      (s : Text) (place : ℕ) (rest : Text → Option (List Text))
      → place ≡ length s
      → parameter_turn s place rest ≡ some (s ∷ [])
  last_turn s place rest e = ground arith

  early_turn :
      (s : Text) (place : ℕ) (rest : Text → Option (List Text))
      → place < length s
      → parameter_turn s place rest ≡ onto (take place s) (rest (drop (place + 1) s))
  early_turn s place rest h = ground arith

  next_turn :
      (p t : Text) (place : ℕ) (rest : Text → Option (List Text))
      → place ≡ length p
      → parameter_turn (p ++ d ∷ t) place rest ≡ onto p (rest t)
  next_turn p t place rest e =
      let behind : place + 1 ≡ suc (length p) = omega arith in
      early_turn (p ++ d ∷ t) place rest (omega (arith, length-append p (d ∷ t)))
      ∙ ap (λ n. onto (take n (p ++ d ∷ t)) (rest (drop (place + 1) (p ++ d ∷ t)))) e
      ∙ ap (λ r. onto r (rest (drop (place + 1) (p ++ d ∷ t)))) (take-append p (d ∷ t))
      ∙ ap (λ n. onto p (rest (drop n (p ++ d ∷ t)))) behind
      ∙ ap (λ r. onto p (rest r)) (drop-append p d t)

  append-ne-nil : (p t : Text) → p ++ d ∷ t ≢ []
  append-ne-nil [] t e = cc
  append-ne-nil (c ∷ p) t e = cc

  find-nothing : find_first_symbol false (pos 0) (d ∷ []) [] ≡ 0
  unfolding find_first_symbol
  find-nothing = refl

  last_place : (p : Text) → Parameter d p → find_first_symbol false (pos 0) (d ∷ []) p ≡ length p
  last_place p h =
      ap (find_first_symbol false (pos 0) (d ∷ [])) (sym (append-nil p))
      ∙ omega (arith, find-Parameter [] h, find-nothing)

  parameters_from-joined :
      (fuel : ℕ) (parts : List Text)
      → Parameters d parts
      → length (joined d parts) < fuel
      → parameters_from fuel (d ∷ []) (joined d parts) ≡ some parts
  parameters_from-joined zero parts h k = absurd (omega arith)
  parameters_from-joined (suc fuel) _ (one {p} h full) k =
      parameters_from-turn fuel p full
      ∙ last_turn p (find_first_symbol false (pos 0) (d ∷ []) p) (parameters_from fuel (d ∷ []))
          (last_place p h)
  parameters_from-joined (suc fuel) _ (another {p} {q} {ps} h hs) k =
      let t = joined d (q ∷ ps) in
      parameters_from-turn fuel (p ++ d ∷ t) (append-ne-nil p t)
      ∙ next_turn p t (find_first_symbol false (pos 0) (d ∷ []) (p ++ d ∷ t))
          (parameters_from fuel (d ∷ []))
          (omega (arith, find-Parameter (d ∷ t) h, find-delimiter t))
      ∙ ap (onto p)
          (parameters_from-joined fuel (q ∷ ps) hs (omega (arith, k, length-append p (d ∷ t))))

  -- For a delimiter that is no parenthesis and no backslash: parseParameters ends, and it takes a
  -- list of parameters that were joined by the delimiter apart again, where the parentheses of each
  -- match, the delimiter stands in it only inside parentheses, and the last one is not empty.
  pub parse_parameters-joined :
      (parts : List Text)
      → Parameters d parts
      → parse_parameters (joined d parts) (d ∷ []) ≡ some parts
  unfolding parse_parameters
  parse_parameters-joined parts h =
      parameters_from-joined (suc (length (joined d parts))) parts h (omega arith)
