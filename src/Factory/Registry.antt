-- ===== src/Factory/Registry.antt =====
-- modules/shared/factory/include/oink_judge/factory/type_factory.inl, and create of
-- parameterized_type_factory.inl. A registered function gives the object or throws.
use oink_judge.Prelude.{
  Bool, true, false, ◌≡◌, refl, ap, ◌∙◌, ◌&&◌, Option, none, some, List, [], ◌∷◌, if◌then◌else◌,
  ◌==◌, nat_eq, Outcome, thrown, ◌>>=◌, Bool-cases, inl, inr, arith,
}
use oink_judge.Factory.Names.{Text, parse_name}
use oink_judge.Factory.Names.Balance.{Balanced}
use oink_judge.Factory.Names.Parse.{IsWord, typed, parse_name-typed}

unfoldable pub same_text : Text → Text → Bool
same_text [] [] = true
same_text [] (d ∷ t) = false
same_text (c ∷ s) [] = false
same_text (c ∷ s) (d ∷ t) = c == d && same_text s t

same_text_self : (s : Text) → same_text s s ≡ true
unfolding same_text
same_text_self [] = refl
same_text_self (c ∷ s) = let rest = same_text_self s in ground arith

module _ {ℓ} {F : Type ℓ} where
  -- registered_types_[name] = func
  unfoldable pub register_type : Text → F → List (Text × F) → List (Text × F)
  unfolding same_text
  register_type name func [] = (name, func) ∷ []
  register_type name func ((other, old) ∷ types) =
      if same_text other name
      then (name, func) ∷ types
      else (other, old) ∷ register_type name func types

  -- registered_types_.find(name)
  unfoldable pub find_type : Text → List (Text × F) → Option F
  unfolding same_text
  find_type name [] = none
  find_type name ((other, func) ∷ types) =
      if same_text other name then some func else find_type name types

  find_type-register_type :
      (name : Text) (func : F) (types : List (Text × F))
      → find_type name (register_type name func types) ≡ some func
  unfolding find_type register_type
  find_type-register_type name func [] = rw (same_text_self name) refl
  find_type-register_type name func ((other, old) ∷ types) =
      elim (Bool-cases (same_text other name)) [
        | inl e ↦ rw e (rw (same_text_self name) refl)
        | inr e ↦ rw e (rw e (find_type-register_type name func types))
      ]

module _ {ℓ} {A : Type ℓ} where
  abbrev pub call_type : Option (Text → Outcome A) → Text → Outcome A
  call_type none params = thrown "Unknown type: "
  call_type (some func) params = func params

  -- TypeFactory::create
  unfoldable pub create_plain : List (Text × (Text → Outcome A)) → Text → Text → Outcome A
  unfolding find_type
  create_plain types name params = call_type (find_type name types) params

  -- ParameterizedTypeFactory::create
  unfoldable pub create : List (Text × (Text → Outcome A)) → Text → Outcome A
  create types name = do parsed ← parse_name name; call_type (find_type parsed.0 types) parsed.1

  -- For a type's name without parentheses, backslashes and white space, and parameters without
  -- backslashes in which the parentheses match: once the type is registered, whatever was
  -- registered before, create on `name(params)` calls its function on the parameters as written.
  pub create-register_type :
      (types : List (Text × (Text → Outcome A))) (name params : Text) (func : Text → Outcome A)
      → IsWord name
      → Balanced params
      → create (register_type name func types) (typed name params) ≡ func params
  unfolding create
  create-register_type types name params func h k =
      ap
        (λ r.
          r >>= λ parsed. call_type (find_type parsed.0 (register_type name func types)) parsed.1)
        (parse_name-typed name params h k)
      ∙ ap (λ f. call_type f params) (find_type-register_type name func types)
