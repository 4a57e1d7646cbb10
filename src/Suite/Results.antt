-- ===== src/Suite/Results.antt =====
-- testResults.h and testResults.cpp: the outcomes of a test and the counters of a run.
use tnvme.Base.{ℕ, ◌+◌, Bool, ◌==◌}

pub data TestResult : Type 0 where
  success fail skipping informative not_found fence : TestResult

-- `int results[TR_FENCE]`; the counts stay far below the range of `int`.
pub record TestResults : Type 0 where
  pub passed : ℕ
  pub failed : ℕ
  pub skipped : ℕ
  pub informed : ℕ
  pub missing : ℕ

-- The constructor fills the array with zeros.
abbrev pub no_results : TestResults
no_results = record { passed = 0; failed = 0; skipped = 0; informed = 0; missing = 0 }

-- `TestResults::addResult`; TR_FENCE is no index of the array, and no caller passes it.
unfoldable pub add_result : TestResult → ℕ → TestResults → TestResults
add_result success n r = record r { passed = r.passed + n }
add_result fail n r = record r { failed = r.failed + n }
add_result skipping n r = record r { skipped = r.skipped + n }
add_result informative n r = record r { informed = r.informed + n }
add_result not_found n r = record r { missing = r.missing + n }
add_result fence n r = r

-- `TestResults::allTestsPass`
unfoldable pub all_tests_pass : TestResults → Bool
all_tests_pass r = r.failed == 0

-- The "total tests" of `TestResults::report`, which leaves TR_NOTFOUND out.
unfoldable pub total_tests : TestResults → ℕ
total_tests r = r.passed + r.failed + r.skipped + r.informed
