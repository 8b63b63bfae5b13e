-- ===== src/Reporter/Retries.antt =====
-- How often the reporter asks for the GPUs of a pod.
use kube_comp_mig.Prelude.{ℕ, zero, suc, ◌+◌, ◌≤◌, String, ◌≡◌, refl, arith}
use kube_comp_mig.Prelude.Outcomes.{Outcome, ok, err, panic, running}
use kube_comp_mig.Reporter.{max_retries, retry_loop, get_gpu_ids}

-- The specification: the first answer that is no error among this many more, or else the last error.
abbrev pub first_answer : ℕ → (ℕ → Outcome String) → ℕ → Outcome String → Outcome String
first_answer more try n (ok ids) = ok ids
first_answer more try n panic = panic
first_answer more try n running = running
first_answer zero try n (err e) = err e
first_answer (suc more) try n (err e) = first_answer more try (n + 1) (try (n + 1))

retry_loop-first_answer :
    (more fuel : ℕ) (try : ℕ → Outcome String) (n count : ℕ) (o : Outcome String)
    → count + more ≡ max_retries
    → more ≤ fuel
    → retry_loop fuel try n count o ≡ first_answer more try n o
unfolding retry_loop
retry_loop-first_answer zero zero try n count (ok ids) e h = refl
retry_loop-first_answer zero (suc fuel) try n count (ok ids) e h = refl
retry_loop-first_answer (suc more) zero try n count (ok ids) e h = refl
retry_loop-first_answer (suc more) (suc fuel) try n count (ok ids) e h = refl
retry_loop-first_answer zero zero try n count panic e h = refl
retry_loop-first_answer zero (suc fuel) try n count panic e h = refl
retry_loop-first_answer (suc more) zero try n count panic e h = refl
retry_loop-first_answer (suc more) (suc fuel) try n count panic e h = refl
retry_loop-first_answer zero zero try n count running e h = refl
retry_loop-first_answer zero (suc fuel) try n count running e h = refl
retry_loop-first_answer (suc more) zero try n count running e h = refl
retry_loop-first_answer (suc more) (suc fuel) try n count running e h = refl
retry_loop-first_answer zero zero try n count (err m) e h = ground arith
retry_loop-first_answer zero (suc fuel) try n count (err m) e h = ground arith
retry_loop-first_answer (suc more) zero try n count (err m) e h = absurd (omega arith)
retry_loop-first_answer (suc more) (suc fuel) try n count (err m) e h = ground (
  arith,
  retry_loop-first_answer more fuel try (n + 1) (count + 1) (try (n + 1)) (omega arith)
      (omega arith),
)

-- With fuel for five rounds or more, `getGPUIDs` returns the first answer without an error among the
-- first six, and the error of the sixth where there is none.
pub get_gpu_ids-first_answer :
    (fuel : ℕ) (try : ℕ → Outcome String)
    → max_retries ≤ fuel
    → get_gpu_ids fuel try ≡ first_answer max_retries try 0 (try 0)
unfolding get_gpu_ids
get_gpu_ids-first_answer fuel try h =
    retry_loop-first_answer max_retries fuel try 0 0 (try 0) (omega arith) h
