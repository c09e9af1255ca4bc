-- ===== src/TestNode/Meta/Verdicts.antt =====
-- verdict_utils.cpp: the verdict of one test.
use text.Mathlib.Text.{starts_with}
use oink_judge.Prelude.{
  String, Bool, true, false, ◌≡◌, ◌≢◌, refl, some, List, [], ◌∷◌, ◌++◌, ◌==◌, if◌then◌else◌, ok,
  Returns, string_eq, arith, eq_iff,
}
use oink_judge.Prelude.Integers.{ℤ}
use oink_judge.TestNode.Double.{Double}
use oink_judge.TestNode.Verdict.{
  Kind, VerdictType, wrong_t, accepted, wrong_answer, presentation_error, failed,
  time_limit_exceeded, runtime_error, memory_limit_exceeded, idle_limit_exceeded,
  security_violation, new_verdict,
}
use oink_judge.TestNode.Meta.{
  Numbers, MetaInfo, type_of_status, type_of_line, type_of_output, parse_meta_file, measured,
  verdict_of_output, load_verdict_from_checker_output,
}

type_of_output-last :
    (type : VerdictType) (before : List String) (last : String)
    → type_of_output type (before ++ last ∷ []) ≡ type_of_line last
unfolding type_of_output
type_of_output-last type [] last = refl
type_of_output-last type (line ∷ before) last = type_of_output-last (type_of_line line) before last

-- The branches of the two functions, over the answers of their tests.
line_branches : Bool → Bool → Bool → VerdictType
line_branches o w p =
    if o then accepted else if w then wrong_answer else if p then presentation_error else failed

accepts-line_branches : (o w p : Bool) → ((line_branches o w p).short_name == "AC") ≡ o
unfolding line_branches
accepts-line_branches true w p = refl
accepts-line_branches false true p = refl
accepts-line_branches false false true = refl
accepts-line_branches false false false = refl

accepts-type_of_line :
    (line : String) → ((type_of_line line).short_name == "AC") ≡ starts_with line "o"
unfolding type_of_line line_branches
accepts-type_of_line line =
    accepts-line_branches (starts_with line "o") (starts_with line "w") (starts_with line "p")

status_branches : Bool → Bool → Bool → Bool → VerdictType
status_branches to re sg il =
    if to
    then time_limit_exceeded
    else if re
    then runtime_error
    else if sg
    then memory_limit_exceeded
    else if il
    then idle_limit_exceeded
    else security_violation

status_branches-wrong : (to re sg il : Bool) → (status_branches to re sg il).kind ≡ wrong_t
unfolding status_branches
status_branches-wrong true re sg il = refl
status_branches-wrong false true sg il = refl
status_branches-wrong false false true il = refl
status_branches-wrong false false false true = refl
status_branches-wrong false false false false = refl

type_of_status-wrong : (status : String) → (type_of_status status).kind ≡ wrong_t
unfolding type_of_status status_branches
type_of_status-wrong status =
    status_branches-wrong (status == "TO") (status == "RE") (status == "SG") (status == "IL")

module _ {W : Type 0} ⦃d : Double W⦄ (numbers : Numbers W) where
  -- For a meta file that can be read and has the status OK, the checker's output decides by its
  -- last line alone: the verdict has the type of that line, and the score hundred if the line
  -- starts with an o, else zero, with the time and the memory of the meta file.
  pub load_verdict_from_checker_output-last :
      (unset : Kind) (test_name : String) (lines : List (String × String)) (meta : MetaInfo W)
      (before : List String) (last : String)
      → parse_meta_file numbers lines ≡ ok meta
      → meta.status ≡ "OK"
      → load_verdict_from_checker_output numbers unset test_name lines (before ++ last ∷ [])
        ≡ measured numbers test_name meta
            (type_of_line last)
            (if starts_with last "o" then d.hundred else d.nought)
  unfolding load_verdict_from_checker_output verdict_of_output
  load_verdict_from_checker_output-last unset test_name lines meta before last parsed fine =
      let type : VerdictType = record { kind = unset; full_name = ""; short_name = "" } in
      ground (
        arith,
        eq_iff meta.status "OK",
        type_of_output-last type before last,
        accepts-type_of_line last,
      )

  -- For a meta file that can be read, has another status than OK, and gives the time and the
  -- memory, whatever the checker wrote, the verdict is of a wrong kind with the score zero, and
  -- has that time and that memory.
  pub load_verdict_from_checker_output-wrong :
      (unset : Kind) (test_name : String) (lines : List (String × String)) (meta : MetaInfo W)
      (output : List String) (time : W) (max_rss : ℤ)
      → parse_meta_file numbers lines ≡ ok meta
      → meta.status ≢ "OK"
      → meta.time ≡ some time
      → meta.max_rss ≡ some max_rss
      → Returns (load_verdict_from_checker_output numbers unset test_name lines output) (λ v.
        (v.info.type.kind ≡ wrong_t)
        × (v.info.score ≡ d.nought)
        × (v.info.time_used ≡ time)
        × (v.info.memory_used ≡ numbers.to_double max_rss))
  unfolding load_verdict_from_checker_output verdict_of_output
  load_verdict_from_checker_output-wrong unset test_name lines meta output time max_rss parsed bad t
        m =
      rw (loaded) (failed_kind, refl, refl, refl)
    where
      failed_kind : (type_of_status meta.status).kind ≡ wrong_t
      failed_kind = type_of_status-wrong meta.status

      loaded :
          load_verdict_from_checker_output numbers unset test_name lines output
          ≡ ok (record (new_verdict test_name) {
            info = record {
              type = type_of_status meta.status;
              score = d.nought;
              time_used = time;
              memory_used = numbers.to_double max_rss;
              real_time_used = d.nought;
            };
          })
      loaded = ground (arith, eq_iff meta.status "OK")
