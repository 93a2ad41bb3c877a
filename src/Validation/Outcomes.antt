-- ===== src/Validation/Outcomes.antt =====
-- internal/validation/pipeline.go: which stages run, and what completes them.
use ai4se_coding_agent_harne.Prelude.{
  ℕ, zero, suc, ℤ, String, ◌≡◌, refl, ap, inl, inr, Bool, Bool-cases, true, false, not, ◌&&◌,
  Option, List, [], ◌∷◌, ◌++◌, map, drop, All, arith, if◌then◌else◌,
}
use ai4se_coding_agent_harne.Domain.{Observation}
use ai4se_coding_agent_harne.Config.{CommandSpec}
use ai4se_coding_agent_harne.Validation.{
  Pipeline, StageResult, Result, passed, observed, on_stage, run_stage, run_rest, run, stopped_at,
  from_zero,
}

-- The stages that a run is to cover.
abbrev pub selected : Bool → List CommandSpec → List CommandSpec
selected required_only [] = []
selected required_only (stage ∷ rest) =
    let others = selected required_only rest in
    if required_only && not stage.required then others else stage ∷ others

-- A result that does not end a run.
abbrev pub IsFine : StageResult → Type 0
IsFine r = (not r.passed && r.stage.required) ≡ false

-- A stage counts as passed exactly if its process ended with the code 0.
abbrev pub IsJudged : StageResult → Type 0
IsJudged r = r.passed ≡ passed r.observation

abbrev pub stages_of : List StageResult → List CommandSpec
stages_of results = map (λ r. r.stage) results

abbrev pub Stopped : Result → Type 0
Stopped result =
    (before : List StageResult) × (last : StageResult) × (result.stages ≡ before ++ (last ∷ []))
    × All IsFine before
    × (last.passed ≡ false)
    × (last.stage.required ≡ true)
    × (result.failed_stage ≡ last.stage.id)

abbrev pub Outcome : List CommandSpec → Result → Type 0
Outcome stages result =
    ((rest : List CommandSpec) × (stages_of result.stages ++ rest ≡ stages))
    × (result.complete ≡ true → (stages_of result.stages ≡ stages) × All IsFine result.stages)
    × (result.complete ≡ false → Stopped result)
    × All IsJudged result.stages

stop_outcome :
    (r : StageResult) (rest : List CommandSpec)
    → (not r.passed && r.stage.required) ≡ true
    → IsJudged r
    → Outcome (r.stage ∷ rest) (stopped_at r)
stop_outcome r rest h j =
    ((rest, refl), λ h. cc, λ _. ([], r, refl, tt, ground arith, ground arith, refl), (j, tt))

go_outcome :
    (r : StageResult) (stages : List CommandSpec) (result : Result)
    → IsFine r
    → IsJudged r
    → Outcome stages result
    → Outcome (r.stage ∷ stages) (record result { stages = r ∷ result.stages })
go_outcome r stages result fine j ((rest, e), done, halted, judged) = (
  (rest, ap (λ x. r.stage ∷ x) e),
  λ c. let (all, ok) = done c in (ap (λ x. r.stage ∷ x) all, (fine, ok)),
  λ c.
      let (before, last, shape, ok, failed, required, name) = halted c in
      (r ∷ before, last, ap (λ x. r ∷ x) shape, (fine, ok), failed, required, name),
  (j, judged),
)

drop-suc :
    (i : ℕ) (xs : List CommandSpec) (x : CommandSpec) (rest : List CommandSpec)
    → drop i xs ≡ x ∷ rest
    → drop (suc i) xs ≡ rest
drop-suc zero [] x rest h = cc
drop-suc zero (y ∷ ys) x rest h = cc
drop-suc (suc i) [] x rest h = cc
drop-suc (suc i) (y ∷ ys) x rest h = drop-suc i ys x rest h

module _ {W : Type 0} where
  on_stage_outcome :
      (r : StageResult) (w : W) (stages : List CommandSpec) (continue : W → Result × W)
      → IsJudged r
      → ((w' : W) → Outcome stages (continue w').0)
      → Outcome (r.stage ∷ stages) (on_stage (r, w) continue).0
  on_stage_outcome r w stages continue j others =
      elim (Bool-cases (not r.passed && r.stage.required)) [
        | inl e ↦ rw (on_stage, e) (stop_outcome r stages e j)
        | inr e ↦ rw (on_stage, e) (go_outcome r stages (continue w).0 e j (others w))
      ]

  observed_outcome :
      (stage : CommandSpec) (x : (Observation × Option String) × W) (stages : List CommandSpec)
      (continue : W → Result × W)
      → ((w' : W) → Outcome stages (continue w').0)
      → Outcome (stage ∷ stages) (on_stage (observed stage x) continue).0
  unfolding observed
  observed_outcome stage x stages continue others =
      on_stage_outcome (observed stage x).0 (observed stage x).1 stages continue refl others

  module _ (p : Pipeline W) (required_only : Bool) where
    run_rest_outcome :
        (i : ℕ) (rest : List CommandSpec) (w : W)
        → drop i p.stages ≡ rest
        → Outcome (selected required_only rest) (run_rest p required_only i rest w).0
    unfolding run_rest run_stage
    run_rest_outcome i [] w h = (([], refl), λ _. (refl, tt), λ h. cc, tt)
    run_rest_outcome i (stage ∷ rest) w h =
        let others =
          λ (v : W). run_rest_outcome (suc i) rest v (drop-suc i p.stages stage rest h) in
        elim (Bool-cases (required_only && not stage.required)) [
          | inl e ↦ rw (run_rest, e) (others w)
          | inr e ↦
              rw (run_rest, e, h)
                (observed_outcome stage (p.executor stage w) (selected required_only rest)
                  (λ w'. run_rest p required_only (suc i) rest w') others)
        ]

    -- A run from any position covers a part, from the front, of the stages to be run there. If it is
    -- complete it covers them all, and none that is required failed. If it is not, it ends with a
    -- required stage that failed, the one that it names, and no required stage failed before it. Each
    -- stage counts as passed exactly if its process ended with the code 0.
    pub run_outcome :
        (start : ℤ) (w : W)
        → Outcome
            (selected required_only (drop (from_zero start) p.stages))
            (run p start required_only w).0
    unfolding run
    run_outcome start w =
        run_rest_outcome (from_zero start) (drop (from_zero start) p.stages) w refl
