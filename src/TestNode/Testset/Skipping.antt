-- ===== src/TestNode/Testset/Skipping.antt =====
-- testset.cpp: which tests of a set are run, and what skipping changes.
use Prim.Native.Nat.{max}
use mathlib.Core.List.{foldl}
use oink_judge.Prelude.{
  ℕ, zero, suc, ◌≤◌, ◌<◌, String, true, false, ◌≡◌, refl, ap, some, List, [], ◌∷◌, map, length,
  get_elem?, All, Outcome, ok, thrown, string_eq, nat_eq, arith, inl, inr, Bool-cases, ltb→lt,
  some_inj, ltb,
}
use oink_judge.TestNode.Double.{Double, IsOrdered, number_double}
use oink_judge.TestNode.Verdict.{
  Verdict, clear_min, clear_sum, add_min, add_sum, score_is_not_zero, min_builder, sum_builder,
}
use oink_judge.TestNode.Verdict.Scores.{
  score_of, IsZero, IsScore, add_min-IsZero, add_min-IsScore, hundred-IsScore,
}
use oink_judge.TestNode.Test.{Params, Test}
use oink_judge.TestNode.Testset.{
  Testset, set_limits, boxes_required, run_tests, skip_tests, testset_run, testset_skip,
}

module _ {W S : Type 0} where
  boxes_required-ge : (tests : List (Test W S)) (m : ℕ) → m ≤ boxes_required tests m
  unfolding boxes_required
  boxes_required-ge [] m = omega arith
  boxes_required-ge (t ∷ tests) m = omega (arith, boxes_required-ge tests (max m t.boxes_required))

  boxes_required-bound :
      (tests : List (Test W S)) (m i : ℕ) (t : Test W S)
      → get_elem? tests i ≡ some t
      → t.boxes_required ≤ boxes_required tests m
  unfolding boxes_required
  boxes_required-bound [] m i t e = cc
  boxes_required-bound (x ∷ tests) m zero t e = omega (
    arith,
    boxes_required-ge tests (max m x.boxes_required),
    ap (λ (y : Test W S). y.boxes_required) (some_inj e),
  )
  boxes_required-bound (x ∷ tests) m (suc i) t e =
      boxes_required-bound tests (max m x.boxes_required) i t e

  -- Where the boxes are too few for any one test of the set, the set refuses to run and has
  -- changed nothing.
  pub testset_run-refuses :
      (set : Testset W S) (submission_id : String) (boxes : List String) (params : Params W) (s : S)
      (i : ℕ) (t : Test W S)
      → get_elem? set.tests i ≡ some t
      → length boxes < t.boxes_required
      → testset_run set submission_id boxes params s ≡ (thrown "Not enough boxes provided", s)
  unfolding testset_run
  testset_run-refuses set submission_id boxes params s i t at few =
      ground (arith, boxes_required-bound set.tests 0 i t at)

module _ {W : Type 0} ⦃d : Double W⦄ (o : IsOrdered W) where
  add_sum-IsZero :
      (current v : Verdict W)
      → IsZero (score_of current)
      → IsZero (score_of v)
      → IsZero (score_of (add_sum current v))
  unfolding add_sum
  add_sum-IsZero current v h k = o.plus_nought _ _ h k

  stuck_at_zero :
      (current : Verdict W) → IsZero (score_of current) → score_is_not_zero current ≡ false
  unfolding score_is_not_zero
  stuck_at_zero current h = rw h

nonzero_now :
    {W : Type 0} ⦃d : Double W⦄ (current : Verdict W)
    → d.equal (score_of current) d.nought ≡ false
    → score_is_not_zero current ≡ true
unfolding score_is_not_zero
nonzero_now current h = rw h

module _ {W S : Type 0} ⦃d : Double W⦄ (o : IsOrdered W) (submission_id : String) where
  -- In every state the test can be skipped, and reports a score of zero.
  abbrev pub SkipsToZero : Test W S → Type 0
  SkipsToZero t =
      (s : S)
      → (v : Verdict W) × (s' : S) × (t.skip submission_id s ≡ (ok v, s')) × IsZero (score_of v)

  run_tests-sum :
      (boxes : List String) (params : Params W) (tests : List (Test W S)) (current : Verdict W)
      (s : S)
      → All SkipsToZero tests
      → IsZero (score_of current)
      → run_tests sum_builder submission_id boxes params tests current s
        ≡ skip_tests sum_builder submission_id tests current s
  unfolding run_tests skip_tests
  run_tests-sum boxes params [] current s h z = refl
  run_tests-sum boxes params (t ∷ tests) current s h z =
      let (v, s', e, zv) = h.0 s in
      rw (stuck_at_zero o current z, e)
        (run_tests-sum boxes params tests (add_sum current v) s' h.1
          (add_sum-IsZero o current v z zv))

  -- With the sum builder, tests that can be skipped for a score of zero, and enough boxes, to run
  -- a test set is to skip it: no test is ever run.
  pub sum_testset-run-skip :
      (set : Testset W S) (boxes : List String) (params : Params W) (s : S)
      → set.builder ≡ sum_builder
      → All SkipsToZero set.tests
      → boxes_required set.tests 0 ≤ length boxes
      → testset_run set submission_id boxes params s ≡ testset_skip set submission_id s
  unfolding testset_run testset_skip
  sum_testset-run-skip set boxes params s sum h enough =
      elim (Bool-cases (ltb (length boxes) (boxes_required set.tests 0))) [
        | inl few ↦ absurd (omega (arith, ltb→lt _ _ few))
        | inr fine ↦
            rw (fine, sum)
              (run_tests-sum boxes _ set.tests (clear_sum set.name) s h
                (unfold clear_sum in equal_refl d.nought))
      ]
    where
      equal_refl : (a : W) → d.equal a a ≡ true
      equal_refl a = (o.equal_iff a a).1 (o.le_refl a, o.le_refl a)

-- Tests whose results, in the boxes and with the limits that the set gives them, do not depend on
-- the state that they find.
module _ {W S : Type 0} ⦃d : Double W⦄ (o : IsOrdered W) (submission_id : String)
    (boxes : List String) (limits : Params W) (ran skipped : Test W S → Verdict W) where
  abbrev pub IsSteady : Test W S → Type 0
  IsSteady t =
      ((s : S) → (s' : S) × (t.run submission_id boxes limits s ≡ (ok (ran t), s')))
      × ((s : S) → (s' : S) × (t.skip submission_id s ≡ (ok (skipped t), s')))
      × IsScore (score_of (ran t))
      × IsScore (score_of (skipped t))

  -- The loop returns, with the score that running every test gives.
  abbrev pub ScoresLike : Verdict W → Outcome (Verdict W) × S → Type 0
  ScoresLike reference r =
      (u : Verdict W) × (r.0 ≡ ok u) × (d.equal (score_of u) (score_of reference) ≡ true)

  stays-IsZero :
      (current : Verdict W) (tests : List (Test W S))
      → All IsSteady tests
      → IsScore (score_of current)
      → IsZero (score_of current)
      → IsZero (score_of (foldl add_min current (map ran tests)))
  stays-IsZero current [] h c z = z
  stays-IsZero current (t ∷ tests) h c z =
      stays-IsZero (add_min current (ran t)) tests h.1 (add_min-IsScore o current (ran t) c h.0.2)
        (add_min-IsZero o current (ran t) c h.0.2 (inl z))

  equal_of_zeros : (a b : W) → IsZero a → IsZero b → d.equal a b ≡ true
  equal_of_zeros a b za zb =
      let (a0, a1) = (o.equal_iff a d.nought).0 za in
      let (b0, b1) = (o.equal_iff b d.nought).0 zb in
      (o.equal_iff a b).1 (o.le_trans a d.nought b a0 b1, o.le_trans b d.nought a b0 a1)

  run_tests-IsZero :
      (tests : List (Test W S)) (current : Verdict W) (s : S)
      → All IsSteady tests
      → IsScore (score_of current)
      → IsZero (score_of current)
      → (u : Verdict W) × ((run_tests min_builder submission_id boxes limits tests current s).0
          ≡ ok u)
        × IsZero (score_of u)
  unfolding run_tests
  run_tests-IsZero [] current s h c z = (current, refl, z)
  run_tests-IsZero (t ∷ tests) current s h c z =
      let (s', e) = h.0.1 s in
      rw (stuck_at_zero o current z, e)
        (run_tests-IsZero tests (add_min current (skipped t)) s' h.1
          (add_min-IsScore o current (skipped t) c h.0.3)
          (add_min-IsZero o current (skipped t) c h.0.3 (inl z)))

  run_tests-min :
      (tests : List (Test W S)) (current : Verdict W) (s : S)
      → All IsSteady tests
      → IsScore (score_of current)
      → ScoresLike
          (foldl add_min current (map ran tests))
          (run_tests min_builder submission_id boxes limits tests current s)
  unfolding run_tests
  run_tests-min [] current s h c = (current, refl, (o.equal_iff _ _).1 (o.le_refl _, o.le_refl _))
  run_tests-min (t ∷ tests) current s h c =
      elim (Bool-cases (d.equal (score_of current) d.nought)) [
        | inl zero_now ↦
            let (u, e, z) = run_tests-IsZero (t ∷ tests) current s h c zero_now in
            (u, e, equal_of_zeros _ _ z (stays-IsZero current (t ∷ tests) h c zero_now))
        | inr more ↦
            let (s', e) = h.0.0 s in
            rw (nonzero_now current more, e)
              (run_tests-min tests (add_min current (ran t)) s' h.1
                (add_min-IsScore o current (ran t) c h.0.2))
      ]

  -- With the min builder, enough boxes, and tests that return results with scores from zero up
  -- that, in these boxes and under the limits of the set, do not depend on the state, a test set
  -- returns a verdict, and its score equals that of running every test.
  pub min_testset-run-score :
      (set : Testset W S) (params : Params W) (s : S)
      → set_limits set params ≡ limits
      → set.builder ≡ min_builder
      → All IsSteady set.tests
      → boxes_required set.tests 0 ≤ length boxes
      → ScoresLike
          (foldl add_min (clear_min set.name) (map ran set.tests))
          (testset_run set submission_id boxes params s)
  unfolding testset_run
  min_testset-run-score set params s given least h enough =
      elim (Bool-cases (ltb (length boxes) (boxes_required set.tests 0))) [
        | inl few ↦ absurd (omega (arith, ltb→lt _ _ few))
        | inr fine ↦
            rw (fine, given, least)
              (run_tests-min set.tests (clear_min set.name) s h
                (unfold clear_min in hundred-IsScore o))
      ]
