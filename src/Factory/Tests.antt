-- ===== src/Factory/Tests.antt =====
-- Some names, and the theorems at them.
use oink_judge.Prelude.{false, ◌≡◌, refl, ◌≢◌, some, [], ◌∷◌, ok}
use oink_judge.Prelude.{Outcome}
use oink_judge.Factory.Names.Balance.{IsPlain, plain, nothing, group}
use oink_judge.Factory.Names.Parse.{typed}
use oink_judge.Factory.Names.Parameters.{
  Parameters, one, another, ends, char, nested, joined, parse_parameters-joined,
}
use oink_judge.Factory.Registry.{register_type, create, create-register_type}
use oink_judge.Factory.Names.{
  Text, parse_name, normalize_argument, find_first_symbol, parse_normalized, parse_parameters,
}

-- channel(a, b)
abbrev channel : Text
channel = b'c' ∷ b'h' ∷ b'(' ∷ b'a' ∷ b',' ∷ 32 ∷ b'b' ∷ b')' ∷ []

channel_run : parse_name channel ≡ ok (b'c' ∷ b'h' ∷ [], b'a' ∷ b',' ∷ 32 ∷ b'b' ∷ [])
unfolding parse_name normalize_argument find_first_symbol parse_normalized
channel_run = refl

parameters_run :
    parse_parameters (b'a' ∷ b'(' ∷ b',' ∷ b')' ∷ b',' ∷ b'b' ∷ []) (b',' ∷ [])
    ≡ some ((b'a' ∷ b'(' ∷ b',' ∷ b')' ∷ []) ∷ (b'b' ∷ []) ∷ [])
unfolding parse_parameters
parameters_run = refl

-- Without `remove_whitespaces` only escaped characters are kept.
normalize_run : normalize_argument (b'a' ∷ b'\\' ∷ b'b' ∷ b'c' ∷ []) false ≡ b'\\' ∷ b'b' ∷ []
unfolding normalize_argument
normalize_run = refl

abbrev letter : Text
letter = b'a' ∷ []

letter-IsPlain : IsPlain b'a'
letter-IsPlain = (refl, refl, refl)

-- a(,)
abbrev nested_comma : Text
nested_comma = b'a' ∷ b'(' ∷ b',' ∷ b')' ∷ []

letter_filled : letter ≢ []
letter_filled e = cc

abbrev two_parameters : Parameters b',' (nested_comma ∷ letter ∷ [])
two_parameters =
    another (char letter-IsPlain refl (nested (plain (refl, refl, refl) nothing) ends refl))
      (one (char letter-IsPlain refl ends) letter_filled)

parse_parameters-joined_example :
    parse_parameters (joined b',' (nested_comma ∷ letter ∷ [])) (b',' ∷ [])
    ≡ some (nested_comma ∷ letter ∷ [])
parse_parameters-joined_example =
    parse_parameters-joined b',' (refl, refl, refl) (nested_comma ∷ letter ∷ []) two_parameters

abbrev echo : Text → Outcome Text
echo params = ok params

create-register_type_example :
    create (register_type letter echo []) (typed letter nested_comma) ≡ ok nested_comma
create-register_type_example =
    create-register_type [] letter nested_comma echo (((refl, refl, refl), refl), tt)
      (plain letter-IsPlain (group (plain (refl, refl, refl) nothing) nothing refl))
