-- ===== src/Release/Gated.antt =====
-- The release gate after a run (services/api/paytwin_api/reliability/router.py).
use pay_twin_os.Prelude.{
  ◌≡◌, refl, sym, ap, ◌∙◌, subst, String, Bool, true, false, Option, none, List, [], ◌∷◌, ◌++◌,
  ◌&&◌, arith, str_eq, eq_refl, take, ok, ◌>>=◌, >>=-ok, raise_if-ok,
}
use pay_twin_os.Table.{rows_where}
use pay_twin_os.Release.Suite.{Gate, gate}
use pay_twin_os.Release.Verdict.{all_passed, is_clean, is_ready, gate_ready}
use pay_twin_os.Release.Recorded.{findings_in, run_suites-Balanced, run_merchant-Balanced}
use pay_twin_os.Release.Evidence.{
  Run, Evidence, of_org, newest_first, runs_for_org, release_gate, Observation, Progress,
  run_suites, run_merchant, without_runtime, any_runtime, wanted_suites, is_absent, new_run,
  record_run, run, merchant_required, gate_of, evidence_of,
}

rows_of_own :
    (org : String) (rs : List Run) (r : Run)
    → str_eq r.org_id org ≡ true
    → newest_first (rows_where (of_org org) (rs ++ r ∷ []))
      ≡ r ∷ newest_first (rows_where (of_org org) rs)
rows_of_own org [] r own = ground arith
rows_of_own org (x ∷ rs) r own = ground (arith, rows_of_own org rs r own)

rows_of_other :
    (org : String) (rs : List Run) (r : Run)
    → str_eq r.org_id org ≡ false
    → rows_where (of_org org) (rs ++ r ∷ []) ≡ rows_where (of_org org) rs
rows_of_other org [] r other = ground arith
rows_of_other org (x ∷ rs) r other = ground (arith, rows_of_other org rs r other)

runs_for_org_own :
    (is_prod writable : Bool) (r : Run) (ev : Evidence) (org : String)
    → str_eq r.org_id org ≡ true
    → runs_for_org is_prod (record_run is_prod writable r ev) org
      ≡ (r ∷ take 49 (newest_first (rows_where (of_org org) ev.rows)), none)
unfolding runs_for_org record_run
runs_for_org_own is_prod writable r ev org own =
    ap
      (λ (mine : List Run).
        evidence_of is_prod org (record_run is_prod writable r ev).artifact (take 50 mine))
      (rows_of_own org ev.rows r own)

record_run_gate :
    (is_prod writable : Bool) (r : Run) (ev : Evidence) (org : String)
    → str_eq r.org_id org ≡ true
    → release_gate is_prod (record_run is_prod writable r ev) org ≡ r.gate
unfolding release_gate
record_run_gate is_prod writable r ev org own =
    ap gate_of (runs_for_org_own is_prod writable r ev org own)

runs_for_org_other :
    (writable : Bool) (r : Run) (ev : Evidence) (org : String)
    → str_eq r.org_id org ≡ false
    → runs_for_org true (record_run true writable r ev) org ≡ runs_for_org true ev org
unfolding runs_for_org record_run
runs_for_org_other writable r ev org other =
    ap (λ (mine : List Run). evidence_of true org ev.artifact (take 50 (newest_first mine)))
      (rows_of_other org ev.rows r other)

record_run_other :
    (writable : Bool) (r : Run) (ev : Evidence) (org : String)
    → str_eq r.org_id org ≡ false
    → release_gate true (record_run true writable r ev) org ≡ release_gate true ev org
unfolding release_gate
record_run_other writable r ev org other = ap gate_of (runs_for_org_other writable r ev org other)

module _ (is_prod writable : Bool) (runtime : String → Option (List Observation))
    (merchants : String → Bool) (run_id org : String) (merchant : Option String)
    (requested : List String) (ev : Evidence) where
  -- What a run that answers has recorded: a run of the organization whose findings are balanced.
  run-recorded :
      {r : Run} {after : Evidence}
      → run is_prod writable runtime merchants run_id org merchant requested ev ≡ ok (r, after)
      → (r.org_id ≡ org)
        × (after ≡ record_run is_prod writable r ev)
        × (r.gate ≡ gate (findings_in r.findings))
        × (all_passed r.checks ≡ is_clean (findings_in r.findings))
  unfolding run
  run-recorded {r} {after} h =
      let (allowed, started) =
        raise_if-ok (any_runtime (wanted_suites requested) && is_absent merchant) merchant_required
          _ h in
      let (p, suites, rest) =
        >>=-ok
          (run_suites org (without_runtime (wanted_suites requested))
            (record { per_suite = []; checks = []; findings = [] }))
          (λ (p : Progress). run_merchant runtime merchants org merchant p >>= (λ (q : Progress).
            let r = new_run run_id org merchant q in ok (r, record_run is_prod writable r ev)))
          started in
      let (q, seen, done) =
        >>=-ok (run_merchant runtime merchants org merchant p)
          (λ (q : Progress).
            let r = new_run run_id org merchant q in ok (r, record_run is_prod writable r ev))
          rest in
      let b =
        run_merchant-Balanced runtime merchants org merchant p
          (run_suites-Balanced org (without_runtime (wanted_suites requested)) _ refl suites)
          seen in
      let same : new_run run_id org merchant q ≡ r = ground arith in
      subst
        (λ (r : Run).
          (r.org_id ≡ org)
          × (after ≡ record_run is_prod writable r ev)
          × (r.gate ≡ gate (findings_in r.findings))
          × (all_passed r.checks ≡ is_clean (findings_in r.findings)))
        same (refl, ground arith, refl, b)

  -- A run that answers has a gate that is ready exactly when all of its checks passed, and that gate
  -- is the release gate of the organization from then on.
  pub run-release_gate :
      {r : Run} {after : Evidence}
      → run is_prod writable runtime merchants run_id org merchant requested ev ≡ ok (r, after)
      → (is_ready r.gate.verdict ≡ all_passed r.checks) × (release_gate is_prod after org ≡ r.gate)
  run-release_gate {r} {after} h =
      let (own, recorded, gated, balanced) = run-recorded h in
      (
        ap (λ (g : Gate). is_ready g.verdict) gated
            ∙ gate_ready (findings_in r.findings)
            ∙ sym balanced,
        ap (λ (e : Evidence). release_gate is_prod e org) recorded
            ∙ record_run_gate is_prod writable r ev org
                (ap (λ (o : String). str_eq o org) own ∙ eq_refl org),
      )

-- In production a run leaves the release gate of every other organization as it was.
pub run-release_gate_other :
    (writable : Bool) (runtime : String → Option (List Observation)) (merchants : String → Bool)
    (run_id org other : String) (merchant : Option String) (requested : List String) (ev : Evidence)
    {r : Run} {after : Evidence}
    → str_eq org other ≡ false
    → run true writable runtime merchants run_id org merchant requested ev ≡ ok (r, after)
    → release_gate true after other ≡ release_gate true ev other
run-release_gate_other writable runtime merchants run_id org other merchant requested ev {r} {after}
      foreign h =
    let (own, recorded, _, _) =
      run-recorded true writable runtime merchants run_id org merchant requested ev h in
    ap (λ (e : Evidence). release_gate true e other) recorded
    ∙ record_run_other writable r ev other (ap (λ (o : String). str_eq o other) own ∙ foreign)
