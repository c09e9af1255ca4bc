-- ===== src/TestNode/Test.antt =====
-- modules/test_node/include/oink_judge/test_node/test.hpp
use oink_judge.Prelude.{ℕ, String, Option, none, List, string_eq, nat_eq}
use oink_judge.Prelude.Exec.{Exec}
use oink_judge.TestNode.Verdict.{Verdict}

-- The keys of additional_params that tests set and read.
pub record Params (W : Type 0) : Type 0 where
  pub time_limit : Option W
  pub memory_limit : Option W
  pub real_time_limit : Option W

-- json::object()
abbrev pub no_params : {W : Type 0} → Params W
no_params = record { time_limit = none; memory_limit = none; real_time_limit = none }

-- class Test: a test is what its methods do. `S` is all that a run can change outside the judge's
-- own objects: the sandboxes, the files, the database.
pub record Test (W S : Type 0) : Type 0 where
  pub name : String
  pub boxes_required : ℕ
  pub run : String → List String → Params W → Exec S (Verdict W)
  pub skip : String → Exec S (Verdict W)
