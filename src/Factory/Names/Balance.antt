-- ===== src/Factory/Names/Balance.antt =====
-- How findFirstSymbol and normalizeArgument pass over balanced text.
use mathlib.Core.List.{append_assoc}
use oink_judge.Prelude.{
  ℕ, suc, ◌+◌, true, false, ◌≡◌, refl, sym, ap, ◌∙◌, [], ◌∷◌, ◌++◌, length, length-append, ◌==◌,
  nat_eq, arith,
}
use oink_judge.Prelude.Integers.{pos}
use oink_judge.Factory.Names.{Text, find_first_symbol, normalize_from}

-- Neither a parenthesis nor a backslash.
abbrev pub IsPlain : ℕ → Type 0
IsPlain c = ((c == b'(') ≡ false) × ((c == b')') ≡ false) × ((c == b'\\') ≡ false)

-- Text without backslashes in which the parentheses match.
pub data Balanced : Text → Type 0 where
  nothing : Balanced []
  plain : {c : ℕ} {cs : Text} → IsPlain c → Balanced cs → Balanced (c ∷ cs)
  group :
      {inner rest s : Text}
      → Balanced inner
      → Balanced rest
      → s ≡ b'(' ∷ (inner ++ b')' ∷ rest)
      → Balanced s

-- One character that is plain, under parentheses
find-plain :
    (n c : ℕ) (symbols rest : Text)
    → IsPlain c
    → find_first_symbol false (pos (suc n)) symbols (c ∷ rest)
      ≡ suc (find_first_symbol false (pos (suc n)) symbols rest)
unfolding find_first_symbol
find-plain n c symbols rest (o, k, b) = ground arith

find-open :
    (n : ℕ) (symbols rest : Text)
    → find_first_symbol false (pos (suc n)) symbols (b'(' ∷ rest)
      ≡ suc (find_first_symbol false (pos (suc (suc n))) symbols rest)
unfolding find_first_symbol
find-open n symbols rest = ground arith

find-close :
    (n : ℕ) (symbols rest : Text)
    → find_first_symbol false (pos (suc (suc n))) symbols (b')' ∷ rest)
      ≡ suc (find_first_symbol false (pos (suc n)) symbols rest)
unfolding find_first_symbol
find-close n symbols rest = ground arith

pub group_length :
    (inner rest more : Text) → (inner ++ b')' ∷ rest) ++ more ≡ inner ++ b')' ∷ (rest ++ more)
group_length inner rest more = append_assoc inner (b')' ∷ rest) more

-- Under parentheses balanced text is passed over, whatever the symbols are.
pub find-Balanced :
    (n : ℕ) (symbols : Text) {s : Text} (rest : Text)
    → Balanced s
    → find_first_symbol false (pos (suc n)) symbols (s ++ rest)
      ≡ length s + find_first_symbol false (pos (suc n)) symbols rest
find-Balanced n symbols rest nothing = omega arith
find-Balanced n symbols rest (plain {c} {cs} p h) =
    omega (arith, find-plain n c symbols (cs ++ rest) p, find-Balanced n symbols rest h)
find-Balanced n symbols rest (group {inner = inner} {rest = others} {s = s} h k e) = rw e (
    omega (
      arith,
      find-open n symbols ((inner ++ b')' ∷ others) ++ rest),
      ap (find_first_symbol false (pos (suc (suc n))) symbols) (group_length inner others rest),
      find-Balanced (suc n) symbols (b')' ∷ (others ++ rest)) h,
      find-close n symbols (others ++ rest),
      find-Balanced n symbols rest k,
      length-append inner (b')' ∷ others),
    ))

-- Under parentheses balanced text stays as it is.
normalize-plain :
    (n c : ℕ) (rest : Text)
    → IsPlain c
    → normalize_from false (pos (suc n)) true (c ∷ rest)
      ≡ c ∷ normalize_from false (pos (suc n)) true rest
unfolding normalize_from
normalize-plain n c rest (o, k, b) = ground arith

normalize-open :
    (n : ℕ) (rest : Text)
    → normalize_from false (pos (suc n)) true (b'(' ∷ rest)
      ≡ b'(' ∷ normalize_from false (pos (suc (suc n))) true rest
unfolding normalize_from
normalize-open n rest = refl

normalize-close :
    (n : ℕ) (rest : Text)
    → normalize_from false (pos (suc n)) true (b')' ∷ rest)
      ≡ b')' ∷ normalize_from false (pos n) true rest
unfolding normalize_from
normalize-close n rest = refl

pub normalize-Balanced :
    (n : ℕ) {s : Text} (rest : Text)
    → Balanced s
    → normalize_from false (pos (suc n)) true (s ++ rest)
      ≡ s ++ normalize_from false (pos (suc n)) true rest
normalize-Balanced n rest nothing = refl
normalize-Balanced n rest (plain {c} {cs} p h) =
    normalize-plain n c (cs ++ rest) p ∙ ap (λ r. c ∷ r) (normalize-Balanced n rest h)
normalize-Balanced n rest (group {inner = inner} {rest = others} {s = s} h k e) = rw e (
    normalize-open n ((inner ++ b')' ∷ others) ++ rest)
    ∙ ap (λ r. b'(' ∷ r)
        (ap (normalize_from false (pos (suc (suc n))) true) (group_length inner others rest)
          ∙ normalize-Balanced (suc n) (b')' ∷ (others ++ rest)) h
          ∙ ap (λ r. inner ++ r)
              (normalize-close (suc n) (others ++ rest)
                ∙ ap (λ r. b')' ∷ r) (normalize-Balanced n rest k))
          ∙ sym (group_length inner others (normalize_from false (pos (suc n)) true rest))))
