-- ===== src/TestNode/Meta.antt =====
-- modules/test_node/src/verdict_utils.cpp. A meta file is given by its lines, each split at its
-- first colon and with the blanks before the value cut off; the checker's output by its lines.
pub mod Verdicts
use text.Mathlib.Text.{starts_with}
use oink_judge.Prelude.{
  true, false, String, Option, none, some, List, [], ◌∷◌, ◌==◌, if◌then◌else◌, Outcome, ok, ◌>>=◌,
  or_throw, string_eq,
}
use oink_judge.Prelude.Integers.{ℤ}
use oink_judge.TestNode.Double.{Double}
use oink_judge.TestNode.Verdict.{
  Kind, VerdictType, Verdict, new_verdict, accepted, wrong_answer, time_limit_exceeded,
  memory_limit_exceeded, runtime_error, presentation_error, idle_limit_exceeded, security_violation,
  failed,
}

-- std::stod, std::stoi and the conversion of an int
pub record Numbers (W : Type 0) : Type 0 where
  pub stod : String → Outcome W
  pub stoi : String → Outcome ℤ
  pub to_double : ℤ → W

pub record MetaInfo (W : Type 0) : Type 0 where
  pub status : String
  pub time : Option W
  pub max_rss : Option ℤ
  pub exit_code : Option ℤ
  pub exit_signal : Option ℤ

-- MetaInfo info;
abbrev pub empty_info : {W : Type 0} → MetaInfo W
empty_info = record {
  status = "";
  time = none;
  max_rss = none;
  exit_code = none;
  exit_signal = none;
}

-- The branches for a status that is not OK.
unfoldable pub type_of_status : String → VerdictType
type_of_status status =
    if status == "TO"
    then time_limit_exceeded
    else if status == "RE"
    then runtime_error
    else if status == "SG"
    then memory_limit_exceeded
    else if status == "IL"
    then idle_limit_exceeded
    else security_violation

-- The branches for one line of the checker's output.
unfoldable pub type_of_line : String → VerdictType
type_of_line line =
    if starts_with line "o"
    then accepted
    else if starts_with line "w"
    then wrong_answer
    else if starts_with line "p"
    then presentation_error
    else failed

-- The loop over the checker's output.
unfoldable pub type_of_output : VerdictType → List String → VerdictType
unfolding type_of_line
type_of_output type [] = type
type_of_output type (line ∷ lines) = type_of_output (type_of_line line) lines

module _ {W : Type 0} ⦃d : Double W⦄ (numbers : Numbers W) where
  -- One turn of the loop of parseMetaFile.
  unfoldable pub parse_line : MetaInfo W → String → String → Outcome (MetaInfo W)
  parse_line info key value =
      if key == "status"
      then ok (record info { status = value })
      else if key == "time"
      then (do time ← numbers.stod value; ok (record info { time = some time }))
      else if key == "max-rss"
      then (do n ← numbers.stoi value; ok (record info { max_rss = some n }))
      else if key == "exitcode"
      then (do n ← numbers.stoi value; ok (record info { exit_code = some n }))
      else if key == "exitsig"
      then (do n ← numbers.stoi value; ok (record info { exit_signal = some n }))
      else ok info

  unfoldable pub parse_lines : MetaInfo W → List (String × String) → Outcome (MetaInfo W)
  unfolding parse_line
  parse_lines info [] = ok info
  parse_lines info ((key, value) ∷ lines) = do
    info' ← parse_line info key value
    parse_lines info' lines

  -- parseMetaFile
  unfoldable pub parse_meta_file : List (String × String) → Outcome (MetaInfo W)
  unfolding parse_lines
  parse_meta_file lines = do
    info ← parse_lines empty_info lines
    ok (if info.status == "" then record info { status = "OK" } else info)

  -- setInfo with the time and the memory of the meta file; the real time stays 0.
  unfoldable pub measured : String → MetaInfo W → VerdictType → W → Outcome (Verdict W)
  measured test_name meta type score = do
    time ← or_throw meta.time "bad optional access"
    max_rss ← or_throw meta.max_rss "bad optional access"
    ok (record (new_verdict test_name) {
      info = record {
        type = type;
        score = score;
        time_used = time;
        memory_used = numbers.to_double max_rss;
        real_time_used = d.nought;
      };
    })

  unfoldable pub verdict_of_meta : String → MetaInfo W → Outcome (Verdict W)
  unfolding measured type_of_status
  verdict_of_meta test_name meta =
      if meta.status == "OK"
      then measured test_name meta accepted d.hundred
      else measured test_name meta (type_of_status meta.status) d.nought

  -- loadVerdictFromMeta
  unfoldable pub load_verdict_from_meta : String → List (String × String) → Outcome (Verdict W)
  unfolding parse_meta_file verdict_of_meta
  load_verdict_from_meta test_name lines = do
    meta ← parse_meta_file lines
    verdict_of_meta test_name meta

  -- The branch of loadVerdictFromCheckerOutput for the status OK. The variable `type` starts
  -- without a value for its kind; its names are empty.
  unfoldable pub verdict_of_output : Kind → String → MetaInfo W → List String → Outcome (Verdict W)
  unfolding measured type_of_output
  verdict_of_output unset test_name meta output =
      let type = type_of_output (record { kind = unset; full_name = ""; short_name = "" }) output in
      measured test_name meta type (if type.short_name == "AC" then d.hundred else d.nought)

  -- loadVerdictFromCheckerOutput
  unfoldable pub load_verdict_from_checker_output :
      Kind → String → List (String × String) → List String → Outcome (Verdict W)
  unfolding parse_meta_file verdict_of_output load_verdict_from_meta
  load_verdict_from_checker_output unset test_name lines output = do
    meta ← parse_meta_file lines
    elim (meta.status == "OK") [
      | true ↦ verdict_of_output unset test_name meta output
      | false ↦ load_verdict_from_meta test_name lines
    ]
