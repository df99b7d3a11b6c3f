-- ===== src/Retry/Budget/Granted.antt =====
-- retry/budget.go: how many retries a budget grants in all, whatever `Decay` forgets.
use resili.Prelude.{ℕ, ◌+◌, ◌*◌, ◌≤◌, ◌≡◌, pos_part, arith, List, [], ◌∷◌, if◌then◌else◌, ◌∙◌, refl}
use resili.Retry.Budget.{Budget, record_success, allow_retry, decay}
use resili.Retry.Budget.Bounds.{Call, succeed, retry, halve, call, calls}

-- Whether a call is one of RecordSuccess, or of Decay.
abbrev pub is_success : Call → ℕ
is_success succeed = 1
is_success _ = 0

abbrev pub is_decay : Call → ℕ
is_decay halve = 1
is_decay _ = 0

-- Whether it is one of AllowRetry that returns true.
abbrev pub is_grant : Budget → Call → ℕ
is_grant b retry = if (allow_retry b).1 then 1 else 0
is_grant b _ = 0

abbrev pub count : (Call → ℕ) → List Call → ℕ
count f [] = 0
count f (c ∷ cs) = f c + count f cs

abbrev pub granted : Budget → List Call → ℕ
granted b [] = 0
granted b (c ∷ cs) = is_grant b c + granted (call b c) cs

-- What the remembered successes pay for, and what is spent of it, in thousandths of a retry.
abbrev paid : Budget → ℕ
paid b = b.success * pos_part b.ratio

-- From the budget `b` to `c`, with `n` retries granted, `s` successes and `d` calls of Decay.
abbrev Accounts : Budget → Budget → ℕ → ℕ → ℕ → Type 0
Accounts b c n s d =
    1000 * n + paid c + 1000 * b.retries
    ≤ paid b + s * pos_part b.ratio + 1000 * c.retries + 1000 * d

call-ratio : (b : Budget) (c : Call) → (call b c).ratio ≡ b.ratio
unfolding call record_success allow_retry decay
call-ratio b succeed = ground arith
call-ratio b retry = ground arith
call-ratio b halve = ground arith

calls-ratio : (cs : List Call) (b : Budget) → (calls b cs).ratio ≡ b.ratio
unfolding calls
calls-ratio [] b = refl
calls-ratio (c ∷ cs) b = calls-ratio cs (call b c) ∙ call-ratio b c
