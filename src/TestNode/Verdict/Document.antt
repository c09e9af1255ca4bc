-- ===== src/TestNode/Verdict/Document.antt =====
-- nlohmann::json as far as verdicts use it: an object assigns under a key. The order of the keys,
-- which only the printed form shows, is that of the first assignments.
use oink_judge.Prelude.{
  String, Option, none, some, ◌≡◌, refl, ◌==◌, if◌then◌else◌, string_eq, arith, eq_iff,
}

mutual
  pub data Json (W : Type 0) : Type 0 where
    text : String → Json W
    number : W → Json W
    object : Fields W → Json W

  pub data Fields (W : Type 0) : Type 0 where
    end : Fields W
    field : String → Json W → Fields W → Fields W

module _ {W : Type 0} where
  -- j[key] = value
  pub put : String → Json W → Fields W → Fields W
  put key value end = field key value end
  put key value (field k v rest) =
      if k == key then field k value rest else field k v (put key value rest)

  pub lookup : String → Fields W → Option (Json W)
  lookup key end = none
  lookup key (field k v rest) = if k == key then some v else lookup key rest

  pub lookup-put :
      (key other : String) (value : Json W) (fields : Fields W)
      → lookup other (put key value fields)
        ≡ (if key == other then some value else lookup other fields)
  unfolding put lookup
  lookup-put key other value end = refl
  lookup-put key other value (field k v rest) =
      ground
        (arith, eq_iff k key, eq_iff k other, eq_iff key other, lookup-put key other value rest)
