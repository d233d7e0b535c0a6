-- ===== src/Release/Views.antt =====
-- The views of the lab (services/api/paytwin_api/reliability/router.py): a run by its name, the
-- findings of an organization, the proof flow and the webhook lab.
use pay_twin_os.Prelude.{
  ℕ, ◌≡◌, refl, sym, ◌∙◌, inl, inr, String, Bool, true, false, not, Option, none, some, List, [],
  ◌∷◌, ◌++◌, ◌&&◌, ◌||◌, ◌==◌, str_eq, arith, if◌then◌else◌, Bool-cases, Result, ok, err, ◌>>=◌,
  or_raise, or_raise-ok, Option-cases,
}
use pay_twin_os.Table.{find_row}
use pay_twin_os.Reliability.Invariants.{inv_008}
use pay_twin_os.Reliability.Scenario.{ScenarioResult, run_scenario, holds_id}
use pay_twin_os.Release.Packs.{PackScenario, Suite, Preset, presets, razorpay_core, all_suites}
use pay_twin_os.Release.Suite.{Gate, Verdict, blocked, ready, any_violation}
use pay_twin_os.Release.Evidence.{
  RunFinding, Run, Artifact, Evidence, of_org, load_runs, runs_for_org,
}

pub data ViewError : Type 0 where
  run_not_found not_detected not_preserved no_scenario unknown_fault : ViewError

abbrev pub named : String → Run → Bool
named id run = str_eq run.run_id id

-- `store.get_run`, whose errors the view takes for a missing run.
abbrev pub stored_run : String → Artifact → Option Run
stored_run id artifact = elim (load_runs false artifact) [
  | err raised ↦ none
  | ok rs ↦ find_row (named id) rs
]

abbrev pub own : String → Option Run → Option Run
own org none = none
own org (some r) = if of_org org r then some r else none

-- The run of that name, if it is one of the organization.
abbrev shown_run : Bool → Evidence → String → String → Option Run
shown_run is_prod ev org id = elim (find_row (λ (r : Run). of_org org r && named id r) ev.rows) [
  | some r ↦ own org (some r)
  | none ↦ if is_prod then none else own org (stored_run id ev.artifact)
]

unfoldable pub get_run : Bool → Evidence → String → String → Result ViewError Run
get_run is_prod ev org id = or_raise (shown_run is_prod ev org id) run_not_found

abbrev pub all_findings : List Run → List RunFinding
all_findings [] = []
all_findings (r ∷ rs) = r.findings ++ all_findings rs

-- The findings of the organization, or the gate of unavailable evidence.
unfoldable pub findings : Bool → Evidence → String → Result Gate (List RunFinding)
findings is_prod ev org = elim (runs_for_org is_prod ev org).1 [
  | some g ↦ err g
  | none ↦ ok (all_findings (runs_for_org is_prod ev org).0)
]

abbrev pub has_id : String → PackScenario → Bool
has_id id sc = str_eq sc.scenario.id id

abbrev fixed_gate : Verdict → ℕ → ℕ → Gate
fixed_gate verdict score critical = record {
  verdict = verdict;
  score = score;
  critical = critical;
  high = 0;
  medium = 0;
}

-- The two stages: "detect" and "verify".
unfoldable pub proof_flow : Bool → Result ViewError Gate
proof_flow detects = do
  sc ← or_raise (find_row (has_id "RZP-ONE-FULFILMENT") razorpay_core.scenarios) no_scenario
  let broken = run_scenario sc.scenario (presets Preset.duplicate_fulfilment)
  let fixed = run_scenario sc.scenario (presets Preset.correct)
  if detects
      then (if holds_id inv_008 broken.violations
          then ok (fixed_gate blocked 75 1)
          else err not_detected)
      else (if any_violation fixed.violations || not (fixed.effects == 1)
          then err not_preserved
          else ok (fixed_gate ready 100 0))

-- `WEBHOOK_FAULTS`, whose fixture is always "correct".
abbrev pub webhook_faults : String → Option String
webhook_faults fault =
    if str_eq fault "duplicate"
    then some "GEN-WH-DUP"
    else if str_eq fault "bad_signature"
    then some "GEN-WH-BADSIG"
    else if str_eq fault "timeout_redelivery"
    then some "GEN-WH-DUP"
    else if str_eq fault "out_of_order"
    then some "RZP-WH-REORDER"
    else none

abbrev pub scenario_named : String → List Suite → Option PackScenario
scenario_named id [] = none
scenario_named id (s ∷ ss) = elim (find_row (has_id id) s.scenarios) [
  | some sc ↦ some sc
  | none ↦ scenario_named id ss
]

unfoldable pub webhook_lab : String → Result ViewError ScenarioResult
webhook_lab fault = do
  id ← or_raise (webhook_faults fault) unknown_fault
  sc ← or_raise (scenario_named id all_suites) no_scenario
  ok (run_scenario sc.scenario (presets Preset.correct))

own-of_org :
    (org : String) (found : Option Run) {r : Run} → own org found ≡ some r → of_org org r ≡ true
own-of_org org none h = cc
own-of_org org (some x) {r} h = ground arith

-- A run is shown to its own organization only.
pub get_run-of_org :
    (is_prod : Bool) (ev : Evidence) (org id : String) {r : Run}
    → get_run is_prod ev org id ≡ ok r
    → of_org org r ≡ true
unfolding get_run
get_run-of_org is_prod ev org id {r} h =
    let shown = or_raise-ok (shown_run is_prod ev org id) run_not_found h in
    elim (Option-cases (find_row (λ (x : Run). of_org org x && named id x) ev.rows)) [
      | inr (x, e) ↦ own-of_org org (some x) (sym (rw (e, shown_run) refl) ∙ shown)
      | inl e ↦ elim (Bool-cases is_prod) [
        | inl prod ↦ absurd (ground arith)
        | inr dev ↦
            own-of_org org (stored_run id ev.artifact) (sym (rw (e, dev, shown_run) refl) ∙ shown)
      ]
    ]
