-- ===== src/TestNode/Verdict.antt =====
-- modules/test_node: verdict_type.hpp, verdicts/ and verdict_builders/.
pub mod Kinds
pub mod Scores
pub mod Document
use oink_judge.Prelude.{ℕ, String, Bool, not, if◌then◌else◌, string_eq, nat_eq, arith, leb}
use oink_judge.TestNode.Double.{Double, std_min, std_max}
use Document.{Json, text, number, object, Fields, end, field, put}

-- VerdictType::Type
pub data Kind : Type 0 where
  accepted_t partial_t skipped_t wrong_t failed_t : Kind

pub record VerdictType : Type 0 where
  pub kind : Kind
  pub full_name : String
  pub short_name : String

abbrev pub accepted : VerdictType
accepted = record { kind = accepted_t; full_name = "Accepted"; short_name = "AC" }

abbrev pub ok_type : VerdictType
ok_type = record { kind = accepted_t; full_name = "OK"; short_name = "OK" }

abbrev pub wrong_answer : VerdictType
wrong_answer = record { kind = wrong_t; full_name = "Wrong Answer"; short_name = "WA" }

abbrev pub time_limit_exceeded : VerdictType
time_limit_exceeded = record {
  kind = wrong_t;
  full_name = "Time Limit Exceeded";
  short_name = "TL";
}

abbrev pub memory_limit_exceeded : VerdictType
memory_limit_exceeded = record {
  kind = wrong_t;
  full_name = "Memory Limit Exceeded";
  short_name = "ML";
}

abbrev pub runtime_error : VerdictType
runtime_error = record { kind = wrong_t; full_name = "Runtime Error"; short_name = "RE" }

abbrev pub presentation_error : VerdictType
presentation_error = record { kind = wrong_t; full_name = "Presentation Error"; short_name = "PE" }

abbrev pub compilation_error : VerdictType
compilation_error = record { kind = wrong_t; full_name = "Compilation Error"; short_name = "CE" }

abbrev pub idle_limit_exceeded : VerdictType
idle_limit_exceeded = record {
  kind = wrong_t;
  full_name = "Idle Limit Exceeded";
  short_name = "IL";
}

abbrev pub partial : VerdictType
partial = record { kind = partial_t; full_name = "Partial"; short_name = "PT" }

abbrev pub skipped : VerdictType
skipped = record { kind = skipped_t; full_name = "Skipped"; short_name = "SK" }

abbrev pub security_violation : VerdictType
security_violation = record { kind = wrong_t; full_name = "Security Violation"; short_name = "SV" }

abbrev pub failed : VerdictType
failed = record { kind = failed_t; full_name = "Failed"; short_name = "FAIL" }

-- VerdictBase::VerdictInfo
pub record VerdictInfo (W : Type 0) : Type 0 where
  pub type : VerdictType
  pub score : W
  pub time_used : W
  pub memory_used : W
  pub real_time_used : W

-- VerdictBase
pub record Verdict (W : Type 0) : Type 0 where
  pub test_name : String
  pub info : VerdictInfo W
  pub additional_info : Fields W

module _ {W : Type 0} ⦃d : Double W⦄ where
  -- The constructor VerdictBase(test_name)
  unfoldable pub new_verdict : String → Verdict W
  new_verdict name = record {
    test_name = name;
    info = record {
      type = record { kind = wrong_t; full_name = "Empty"; short_name = "EM" };
      score = d.nought;
      time_used = d.nought;
      memory_used = d.nought;
      real_time_used = d.nought;
    };
    additional_info = end;
  }

  -- VerdictBase::toJson
  unfoldable pub to_json : Verdict W → ℕ → Json W
  to_json v verbose = object (detailed (timed base))
    where
      base : Fields W
      base = put "score" (number v.info.score) (
          put "verdict"
            (object (
              field "full_name" (text v.info.type.full_name)
                (field "short_name" (text v.info.type.short_name) end)))
            end)

      timed : Fields W → Fields W
      timed fields =
          if leb 1 verbose
          then put "real_time_used" (number v.info.real_time_used) (
              put "memory_used" (number v.info.memory_used)
                (put "time_used" (number v.info.time_used) fields))
          else fields

      detailed : Fields W → Fields W
      detailed fields =
          if leb 2 verbose then put "additional_info" (object v.additional_info) fields else fields

  -- addToAdditionalInfo
  unfoldable pub add_to_additional_info : Verdict W → String → Json W → Verdict W
  add_to_additional_info v key value = record v {
    additional_info = put key value v.additional_info;
  }

  abbrev pub starting_info : W → VerdictInfo W
  starting_info score = record {
    type = accepted;
    score = score;
    time_used = d.nought;
    memory_used = d.nought;
    real_time_used = d.nought;
  }

-- The branches of VerdictBuilderMin::addVerdict that choose the type.
unfoldable pub min_type : VerdictType → VerdictType → VerdictType
min_type current type = elim current.kind [
  | accepted_t ↦ type
  | partial_t ↦ elim type.kind [ accepted_t ↦ current | _ ↦ type ]
  | skipped_t ↦ elim type.kind [ failed_t ↦ type | wrong_t ↦ type | partial_t ↦ type | _ ↦ current ]
  | wrong_t ↦ elim type.kind [ failed_t ↦ type | _ ↦ current ]
  | failed_t ↦ current
]

-- The branches of VerdictBuilderSum::addVerdict that choose the type.
unfoldable pub sum_type : VerdictType → VerdictType → VerdictType
sum_type current type = elim current.kind [
  | accepted_t ↦ elim type.kind [ wrong_t ↦ partial | skipped_t ↦ partial | _ ↦ type ]
  | partial_t ↦ elim type.kind [ failed_t ↦ type | _ ↦ current ]
  | skipped_t ↦ elim type.kind [ skipped_t ↦ current | _ ↦ type ]
  | wrong_t ↦ elim type.kind [
    | failed_t ↦ type
    | partial_t ↦ type
    | accepted_t ↦ partial
    | _ ↦ current
  ]
  | failed_t ↦ current
]

-- class VerdictBuilder: what its subclasses override. The current verdict is the state.
pub record VerdictBuilder (W : Type 0) : Type 0 where
  pub clear : String → Verdict W
  pub add_verdict : Verdict W → Verdict W → Verdict W
  pub can_score_change : Verdict W → Bool

module _ {W : Type 0} ⦃d : Double W⦄ where
  -- VerdictBuilderMin::clear and VerdictBuilderSum::clear
  unfoldable pub clear_min : String → Verdict W
  unfolding new_verdict
  clear_min name = record (new_verdict name) { info = starting_info d.hundred }

  unfoldable pub clear_sum : String → Verdict W
  unfolding new_verdict
  clear_sum name = record (new_verdict name) { info = starting_info d.nought }

  -- VerdictBuilderMin::addVerdict
  unfoldable pub add_min : Verdict W → Verdict W → Verdict W
  unfolding min_type add_to_additional_info
  add_min current verdict =
      record (add_to_additional_info current verdict.test_name (to_json verdict 2)) {
        info = record {
          type = min_type current.info.type verdict.info.type;
          score = std_min current.info.score verdict.info.score;
          time_used = std_max current.info.time_used verdict.info.time_used;
          memory_used = std_max current.info.memory_used verdict.info.memory_used;
          real_time_used = std_max current.info.real_time_used verdict.info.real_time_used;
        };
      }

  -- VerdictBuilderSum::addVerdict
  unfoldable pub add_sum : Verdict W → Verdict W → Verdict W
  unfolding sum_type add_to_additional_info
  add_sum current verdict =
      record (add_to_additional_info current verdict.test_name (to_json verdict 2)) {
        info = record {
          type = sum_type current.info.type verdict.info.type;
          score = d.plus current.info.score verdict.info.score;
          time_used = std_max current.info.time_used verdict.info.time_used;
          memory_used = std_max current.info.memory_used verdict.info.memory_used;
          real_time_used = std_max current.info.real_time_used verdict.info.real_time_used;
        };
      }

  -- canScoreChange of both
  unfoldable pub score_is_not_zero : Verdict W → Bool
  score_is_not_zero current = not (d.equal current.info.score d.nought)

  abbrev pub min_builder : VerdictBuilder W
  min_builder = record {
    clear = clear_min;
    add_verdict = add_min;
    can_score_change = score_is_not_zero;
  }

  abbrev pub sum_builder : VerdictBuilder W
  sum_builder = record {
    clear = clear_sum;
    add_verdict = add_sum;
    can_score_change = score_is_not_zero;
  }
