-- ===== src/Release/Evidence.antt =====
-- The runs of the lab as evidence: `run`, `_runs_for_org` and `release_gate`
-- (services/api/paytwin_api/reliability/router.py), `load_runs` and `save_run` (store.py). What the
-- checks of the runtime sandbox observe is a parameter; the audit entry of a run, its time and its
-- seed are left out.
use pay_twin_os.Prelude.{
  ℕ, String, Bool, true, false, not, Option, none, some, List, [], ◌∷◌, ◌++◌, map, ◌&&◌, str_eq,
  if◌then◌else◌, length, take, Result, ok, err, ◌>>=◌, ◌>>◌, raise_if, or_raise,
}
use pay_twin_os.Table.{rows_where}
use pay_twin_os.Release.Packs.{Suite, all_suites, find_suite}
use pay_twin_os.Release.Suite.{critical, Finding, Check, Gate, gate, unknown_gate, execute_suite}

-- A finding with the suite and the organization that it is told of.
pub record RunFinding : Type 0 where
  pub finding : Finding
  pub suite : String
  pub org_id : String

pub record SuiteResult : Type 0 where
  pub suite_id : String
  pub passed : Bool
  pub checks : ℕ
  pub findings : ℕ

pub data Mode : Type 0 where
  sandbox_runtime sandbox_fixture : Mode

pub record Run : Type 0 where
  pub run_id : String
  pub org_id : String
  pub mode : Mode
  pub per_suite : List SuiteResult
  pub checks : List Check
  pub findings : List RunFinding
  pub gate : Gate

-- The JSON artifact.
pub data Artifact : Type 0 where
  missing corrupt : Artifact
  runs : List Run → Artifact

pub data StoreError : Type 0 where
  evidence_missing evidence_corrupt evidence_write : StoreError

unfoldable pub load_runs : Bool → Artifact → Result StoreError (List Run)
load_runs allow_missing missing = if allow_missing then ok [] else err evidence_missing
load_runs allow_missing corrupt = err evidence_corrupt
load_runs allow_missing (runs rs) = ok rs

-- `writable` tells whether the file system takes the new artifact; it replaces the old one at once.
unfoldable pub save_run : Bool → Run → Artifact → Result StoreError Artifact
save_run writable run artifact = do
  rs ← load_runs true artifact
  raise_if (not writable) evidence_write
  ok (runs (take 50 (run ∷ rs)))

pub record Evidence : Type 0 where
  pub rows : List Run
  pub artifact : Artifact

abbrev pub of_org : String → Run → Bool
of_org org run = str_eq run.org_id org

abbrev pub newest_first {ℓ} : {A : Type ℓ} → List A → List A
newest_first [] = []
newest_first (x ∷ xs) = newest_first xs ++ x ∷ []

-- The runs, and the gate that stands for unavailable evidence.
abbrev pub legacy_runs : String → Artifact → List Run × Option Gate
legacy_runs org artifact = elim (load_runs false artifact) [
  | err raised ↦ ([], some unknown_gate)
  | ok rs ↦ (rows_where (of_org org) rs, none)
]

abbrev pub evidence_of : Bool → String → Artifact → List Run → List Run × Option Gate
evidence_of is_prod org artifact [] = if is_prod then ([], none) else legacy_runs org artifact
evidence_of is_prod org artifact (r ∷ rs) = (r ∷ rs, none)

unfoldable pub runs_for_org : Bool → Evidence → String → List Run × Option Gate
runs_for_org is_prod ev org =
    evidence_of is_prod org ev.artifact (take 50 (newest_first (rows_where (of_org org) ev.rows)))

abbrev pub gate_of : List Run × Option Gate → Gate
gate_of (mine, some g) = g
gate_of ([], none) = unknown_gate
gate_of (r ∷ rs, none) = r.gate

unfoldable pub release_gate : Bool → Evidence → String → Gate
release_gate is_prod ev org = gate_of (runs_for_org is_prod ev org)

-- What a check of the runtime sandbox observes: whether the actual value is the expected one.
pub record Observation : Type 0 where
  pub check_id : String
  pub requirement_ids : List String
  pub as_expected : Bool

-- `_check` (services/api/paytwin_api/reliability/runtime.py), without the observed values.
abbrev pub runtime_check : Observation → Check
runtime_check o = record {
  scenario = o.check_id;
  fixture = "paytwin_runtime_sandbox";
  passed = o.as_expected;
  expected = [];
  violations = [];
  severity = none;
}

abbrev pub runtime_finding : Observation → Finding
runtime_finding o = record {
  scenario = o.check_id;
  severity = critical;
  fixture = "paytwin_runtime_sandbox";
  requirement_ids = o.requirement_ids;
  expected = [];
  actual = [];
}

unfoldable pub runtime_findings : List Observation → List Finding
runtime_findings [] = []
runtime_findings (o ∷ os) =
    let rest = runtime_findings os in if o.as_expected then rest else runtime_finding o ∷ rest

abbrev pub no_finding : List Finding → Bool
no_finding [] = true
no_finding (f ∷ fs) = false

pub data RunError : Type 0 where
  merchant_required unknown_suite merchant_not_found sandbox_only : RunError

pub record Progress : Type 0 where
  pub per_suite : List SuiteResult
  pub checks : List Check
  pub findings : List RunFinding

abbrev pub told : String → String → Finding → RunFinding
told org suite f = record { finding = f; suite = suite; org_id = org }

abbrev pub add_suite : String → String → Bool → List Check → List Finding → Progress → Progress
add_suite org suite passed checks findings p = record {
  per_suite =
      p.per_suite
      ++ record {
        suite_id = suite;
        passed = passed;
        checks = length checks;
        findings = length findings;
      }
        ∷ [];
  checks = p.checks ++ checks;
  findings = p.findings ++ map (told org suite) findings;
}

unfoldable pub run_suites : String → List String → Progress → Result RunError Progress
run_suites org [] p = ok p
run_suites org (sid ∷ sids) p = do
  suite ← or_raise (find_suite sid) unknown_suite
  let r = execute_suite suite
  run_suites org sids (add_suite org sid r.ok r.checks r.findings p)

-- `merchants` are those of the organization; `none` of the runtime is its refusal in production.
unfoldable pub run_merchant :
    (String → Option (List Observation))
    → (String → Bool)
    → String
    → Option String
    → Progress
    → Result RunError Progress
run_merchant runtime merchants org none p = ok p
run_merchant runtime merchants org (some id) p = do
  raise_if (not (merchants id)) merchant_not_found
  os ← or_raise (runtime id) sandbox_only
  let found = runtime_findings os
  ok (add_suite org "razorpay/runtime" (no_finding found) (map runtime_check os) found p)

abbrev pub is_runtime : String → Bool
is_runtime sid = str_eq sid "razorpay/runtime"

abbrev pub without_runtime : List String → List String
without_runtime sids = rows_where (λ (s : String). not (is_runtime s)) sids

abbrev pub any_runtime : List String → Bool
any_runtime [] = false
any_runtime (s ∷ ss) = if is_runtime s then true else any_runtime ss

-- `requested or [...]`
abbrev pub wanted_suites : List String → List String
wanted_suites [] = map (λ (s : Suite). s.suite_id) all_suites
wanted_suites (s ∷ ss) = s ∷ ss

abbrev pub is_absent : Option String → Bool
is_absent none = true
is_absent (some id) = false

abbrev pub mode_of : Option String → Mode
mode_of none = sandbox_fixture
mode_of (some id) = sandbox_runtime

abbrev pub new_run : String → String → Option String → Progress → Run
new_run run_id org merchant p = record {
  run_id = run_id;
  org_id = org;
  mode = mode_of merchant;
  per_suite = p.per_suite;
  checks = p.checks;
  findings = p.findings;
  gate = gate (map (λ (f : RunFinding). f.finding) p.findings);
}

-- The row is the evidence; the artifact outside production is kept when it can be.
unfoldable pub record_run : Bool → Bool → Run → Evidence → Evidence
record_run is_prod writable run ev = record {
  rows = ev.rows ++ run ∷ [];
  artifact =
      if is_prod
      then ev.artifact
      else (elim (save_run writable run ev.artifact) [ err raised ↦ ev.artifact | ok a ↦ a ]);
}

module _ (is_prod writable : Bool) (runtime : String → Option (List Observation))
    (merchants : String → Bool) where
  unfoldable pub run :
      String → String → Option String → List String → Evidence → Result RunError (Run × Evidence)
  run run_id org merchant requested ev = do
    let wanted = wanted_suites requested
    raise_if (any_runtime wanted && is_absent merchant) merchant_required
    p ←
        run_suites org (without_runtime wanted)
          (record { per_suite = []; checks = []; findings = [] })
    q ← run_merchant runtime merchants org merchant p
    let r = new_run run_id org merchant q
    ok (r, record_run is_prod writable r ev)
