-- ===== src/Release/Recorded.antt =====
-- A run and the release gate after it (services/api/paytwin_api/reliability/router.py).
use pay_twin_os.Prelude.{
  ◌≡◌, refl, sym, ◌∙◌, subst, inl, inr, String, Bool, Option, none, some, List, [], ◌∷◌, ◌++◌, map,
  ◌&&◌, arith, Bool-cases, ok, ◌>>=◌, or_raise, >>=-ok,
}
use pay_twin_os.Release.Packs.{find_suite}
use pay_twin_os.Release.Suite.{Finding, Check, execute_suite}
use pay_twin_os.Release.Verdict.{all_passed, is_clean, all_passed-append, execute_suite-Agrees}
use pay_twin_os.Release.Evidence.{
  RunFinding, Observation, runtime_check, runtime_findings, no_finding, unknown_suite, sandbox_only,
  Progress, told, add_suite, run_suites, run_merchant,
}

abbrev pub findings_in : List RunFinding → List Finding
findings_in fs = map (λ (f : RunFinding). f.finding) fs

-- Each failed check of a run so far has left a finding, and no passed one has.
abbrev Balanced : Progress → Type 0
Balanced p = all_passed p.checks ≡ is_clean (findings_in p.findings)

is_clean-told :
    (org suite : String) (xs : List RunFinding) (fs : List Finding)
    → is_clean (findings_in (xs ++ map (told org suite) fs))
      ≡ (is_clean (findings_in xs) && is_clean fs)
is_clean-told org suite [] [] = refl
is_clean-told org suite [] (f ∷ fs) = refl
is_clean-told org suite (x ∷ xs) fs = refl

add_suite-Balanced :
    (org suite : String) (passed : Bool) (cs : List Check) (fs : List Finding) (p : Progress)
    → all_passed cs ≡ is_clean fs
    → Balanced p
    → Balanced (add_suite org suite passed cs fs p)
add_suite-Balanced org suite passed cs fs p e h =
    let a = all_passed-append p.checks cs in
    let b = is_clean-told org suite p.findings fs in ground (arith, e, h, a, b)

pub run_suites-Balanced :
    (org : String) (sids : List String) (p : Progress) {q : Progress}
    → Balanced p
    → run_suites org sids p ≡ ok q
    → Balanced q
unfolding run_suites
run_suites-Balanced org [] p {q} h e = let same : p ≡ q = ground arith in subst Balanced same h
run_suites-Balanced org (sid ∷ sids) p h e =
    let (suite, known, rest) = >>=-ok (or_raise (find_suite sid) unknown_suite) _ e in
    let r = execute_suite suite in
    let a = execute_suite-Agrees suite in
    run_suites-Balanced org sids (add_suite org sid r.ok r.checks r.findings p)
      (add_suite-Balanced org sid r.ok r.checks r.findings p (a.checks ∙ sym a.findings) h) rest

runtime_findings-agree :
    (os : List Observation) → all_passed (map runtime_check os) ≡ is_clean (runtime_findings os)
unfolding runtime_findings
runtime_findings-agree [] = refl
runtime_findings-agree (o ∷ os) = ground (arith, runtime_findings-agree os)

pub run_merchant-Balanced :
    (runtime : String → Option (List Observation)) (merchants : String → Bool) (org : String)
    (merchant : Option String) (p : Progress) {q : Progress}
    → Balanced p
    → run_merchant runtime merchants org merchant p ≡ ok q
    → Balanced q
unfolding run_merchant
run_merchant-Balanced runtime merchants org none p {q} h e =
    let same : p ≡ q = ground arith in subst Balanced same h
run_merchant-Balanced runtime merchants org (some id) p {q} h e = elim (Bool-cases (merchants id)) [
  | inr foreign ↦ absurd (ground arith)
  | inl own ↦
      let rest : (or_raise (runtime id) sandbox_only >>= (λ (os : List Observation).
        let found = runtime_findings os in
        ok (add_suite org "razorpay/runtime" (no_finding found) (map runtime_check os) found p)))
          ≡ ok q =
        ground arith in
      let (os, seen, done) = >>=-ok (or_raise (runtime id) sandbox_only) _ rest in
      let found = runtime_findings os in
      let same : add_suite org "razorpay/runtime" (no_finding found) (map runtime_check os) found p
          ≡ q =
        ground arith in
      subst Balanced same (
        add_suite-Balanced org "razorpay/runtime" (no_finding found) (map runtime_check os) found p
          (runtime_findings-agree os) h)
]
