-- ===== src/Retry/Tests.antt =====
-- retry/: the theorems at concrete inputs.
use resili.Prelude.{
  ℕ, ◌+◌, List, ◌≤◌, ◌≡◌, refl, Bool, true, false, not, ℤ, pos, [], ◌∷◌, ◌++◌, Option, none, some,
  arith, length, ◌≤ℤ◌, ltb, leb_ℤ, update,
}
use resili.Errors.{Err, foreign, retry}
use resili.Retry.Budget.{Budget, Float64, allowed_retries}
use resili.Retry.Budget.Bounds.{IsWithin, Call, succeed, halve}
use resili.Retry.Budget.Granted.{granted}
use resili.Retry.Budget.Concurrent as Concurrent
use resili.Retry.Budget.Concurrent.{System, Reach, start, later, pick, Reach-IsWithin}
use resili.Retry.Policy.{RetryPolicy}
use resili.Retry.Execute.{execute_with_result}
use resili.Retry.Execute.World.{World, world_clock, Caller, retry_action, bodies}
use resili.Retry.Execute.Attempts.{policy_of, execute_accounts}
use resili.Retry.Execute.Exhaustion.{execute_exhausts}
use resili.Retry.Execute.Deadline.{AllBefore, execute_in_time}

-- Ratios as whole numbers of thousandths.
between : (n : ℕ) → (leb_ℤ (pos n) (pos 1000) ≡ true) → (pos 0 ≤ℤ pos n) × (pos n ≤ℤ pos 1000)
between n h = ground arith

abbrev thousandths : Float64
thousandths = record {
  Float = ℕ;
  is_pos = λ n. ltb 0 n;
  at_most_one = λ n. leb_ℤ (pos n) (pos 1000);
  per_mille = λ n. pos n;
  fifth = 200;
  fifth_pos = refl;
  fifth_at_most_one = refl;
  per_mille_range = λ n h k. between n k;
}

abbrev few_calls : List Call
few_calls = succeed ∷ succeed ∷ Call.retry ∷ Call.retry ∷ halve ∷ Call.retry ∷ []

abbrev ten_percent : Budget
ten_percent = record { success = 30; retries = 2; ratio = pos 100 }

-- One goroutine has called AllowRetry, and got true.
abbrev granted_once : System
granted_once = record {
  budget = record ten_percent { retries = 3 };
  pc =
      update
        (update
          (update (update (λ _. Concurrent.Pc.idle) 4 Concurrent.Pc.allowing) 4
            (Concurrent.Pc.success_read 30))
          4 (Concurrent.Pc.both_read 30 2))
        4 Concurrent.Pc.idle;
  granted = 1;
}

granted_once-Reach : Reach false ten_percent 4 granted_once
unfolding Concurrent.grants allowed_retries resili.Prelude.ℕ_discrete
granted_once-Reach =
    later
      (later
        (later (later start (pick 4 Concurrent.Move.ask)) (pick 4 Concurrent.Move.load_success))
        (pick 4 Concurrent.Move.load_retries))
      (pick 4 (Concurrent.Move.swap (omega arith) refl))

Reach-IsWithin_example : (3 ≡ 2 + 1) × (2 + 1 ≤ allowed_retries (pos 100) 30)
Reach-IsWithin_example =
    Reach-IsWithin ten_percent granted_once-Reach (omega arith) within (omega arith)
  where
    within : IsWithin 0 ten_percent
    within = unfold allowed_retries in omega arith

-- Every attempt gets a body and fails.
abbrev failing_world : World ℕ
failing_world = record {
  clock = λ k. pos (k + 10);
  outcomes = λ k. (some k, some (foreign k));
  reads = 0;
  last = pos 3;
  executed = 0;
  starts = [];
  opened = [];
  released = [];
  slept = [];
  budget = ten_percent;
}

abbrev is_error : Option ℕ → Option Err → Bool
is_error r none = false
is_error r (some e) = true

abbrev caller : ℤ → Caller ℕ
caller deadline = record {
  now = pos 3;
  request_deadline = deadline;
  is_success = λ r e. not (is_error r e);
  should_retry = is_error;
  final_err = λ e. some retry;
}

abbrev policy : RetryPolicy (World ℕ) (Option ℕ)
policy = record {
  backoff = none;
  should_retry = some is_error;
  budget = none;
  max_attempts = pos 3;
  try_deadline = pos 0;
}

execute_accounts_example :
    let ((resp, err), w') =
      execute_with_result world_clock none
        (policy_of true (some policy))
        (retry_action (caller (pos 0)))
        failing_world in
    (w'.executed ≤ 0 + 3) × (w'.opened ≡ w'.released ++ bodies resp)
execute_accounts_example = execute_accounts (caller (pos 0)) true (some policy) failing_world refl

execute_exhausts_example :
    let (o, w') =
      execute_with_result world_clock none
        (some policy)
        (retry_action (caller (pos 0)))
        failing_world in
    (o ≡ (none, some retry)) × (w'.executed ≡ 3) × (length w'.slept ≡ 3)
execute_exhausts_example =
    execute_exhausts (caller (pos 0)) policy failing_world refl refl refl refl (λ k. refl)
      (λ k. refl)

execute_in_time_example :
    AllBefore
      (pos 12)
      (execute_with_result world_clock none
        (policy_of false (some policy))
        (retry_action (caller (pos 12)))
        failing_world).1.starts
execute_in_time_example =
    execute_in_time (caller (pos 12)) false (some policy) failing_world refl (omega arith) tt
