-- ===== src/Ws/Dial/Accounts.antt =====
-- rws/hedge.go: what becomes of the connections that a hedged dial has made, and of the bodies of the
-- handshakes.
use resili.Prelude.{
  ℕ, suc, ◌+◌, ◌^◌, ◌≤◌, ◌<◌, ◌≡◌, inl, inr, refl, ap, Option, none, some, List, [], ◌∷◌, ◌++◌,
  arith, length, is_it, occurrences,
}
use resili.Errors.{Outcome}
use resili.Hedge.{HedgeState}
use resili.Ws.Dial.{
  Dialed, Shared, Main, waiting, finishing, recycling, settling, settled, MainMove, receive, leave,
  leave_last, recycle, settle, AttemptMove, answer, exit, exit_last, put_back, System, Step,
  main_moves, fire, attempt_moves, Reach, start, later,
}
use resili.Hedge.Race.{Attempt}
use resili.Ws.Dial.Refines.{dial-IsRun}

module _ (part : Dialed → Option ℕ) (c : ℕ) where
  abbrev pub in_result : Option (Outcome Dialed) → ℕ
  in_result none = 0
  in_result (some r) = is_it c (part r.0)

  abbrev pub in_results : List (Outcome Dialed) → ℕ
  in_results [] = 0
  in_results (r ∷ rs) = is_it c (part r.0) + in_results rs

  in_results-append :
      (rs : List (Outcome Dialed)) (r : Outcome Dialed)
      → in_results (rs ++ (r ∷ [])) ≡ in_results rs + is_it c (part r.0)
  in_results-append [] r = omega arith
  in_results-append (s ∷ rs) r = omega (arith, in_results-append rs r)

-- The connection that the coordinator has, and the body that it has still to close.
abbrev pub main_conn : Main → Option (Outcome Dialed)
main_conn (waiting _) = none
main_conn (finishing r) = some r
main_conn (recycling r) = some r
main_conn (settling r) = some r
main_conn (settled r) = some r

abbrev pub main_body : Main → Option (Outcome Dialed)
main_body (settled _) = none
main_body m = main_conn m

-- Every dialed connection is closed, in the channel, with the coordinator, or dropped, once.
record Kept (c : ℕ) (a : Shared) (m : Main) : Type 0 where
  conns :
      in_results (λ d. d.conn) c a.finished
      ≡ occurrences c a.closed
        + in_result (λ d. d.conn) c a.state.res_ch
        + in_result (λ d. d.conn) c (main_conn m)
        + in_results (λ d. d.conn) c a.dropped
  bodies :
      in_results (λ d. d.body) c a.finished
      ≡ occurrences c a.released
        + in_result (λ d. d.body) c a.state.res_ch
        + in_result (λ d. d.body) c (main_body m)
        + in_results (λ d. d.body) c a.dropped
  few : length a.dropped ≤ length a.pool

MainMove-Kept : (c : ℕ) {a b : Shared} {p m : Main} → MainMove a p b m → Kept c a p → Kept c b m
MainMove-Kept c (receive e) k = record {
  conns = ground (arith, k.conns);
  bodies = ground (arith, k.bodies);
  few = k.few;
}
MainMove-Kept c (leave e) k = record { conns = k.conns; bodies = k.bodies; few = k.few }
MainMove-Kept c (leave_last e) k = record { conns = k.conns; bodies = k.bodies; few = k.few }
MainMove-Kept c recycle k = record {
  conns = ground (arith, k.conns);
  bodies = ground (arith, k.bodies);
  few = ground (arith, k.few);
}
MainMove-Kept c settle k = record {
  conns = k.conns;
  bodies = ground (arith, k.bodies);
  few = k.few;
}

AttemptMove-Kept :
    (c : ℕ) {a b : Shared} {p t : Attempt} (m : Main)
    → AttemptMove a p b t
    → Kept c a m
    → Kept c b m
AttemptMove-Kept c {a} m (answer r) k = record {
  conns = ground (arith, k.conns, in_results-append (λ d. d.conn) c a.finished r);
  bodies = ground (arith, k.bodies, in_results-append (λ d. d.body) c a.finished r);
  few = k.few;
}
AttemptMove-Kept c m (exit e) k = record { conns = k.conns; bodies = k.bodies; few = k.few }
AttemptMove-Kept c m (exit_last e) k = record { conns = k.conns; bodies = k.bodies; few = k.few }
AttemptMove-Kept c m put_back k = record {
  conns = ground (arith, k.conns);
  bodies = ground (arith, k.bodies);
  few = ground (arith, k.few);
}

Step-Kept :
    (c max_attempts : ℕ) {s t : System}
    → Step max_attempts s t
    → Kept c s.shared s.main
    → Kept c t.shared t.main
Step-Kept c max_attempts (main_moves mv) k = MainMove-Kept c mv k
Step-Kept c max_attempts (fire i e lt) k = record {
  conns = ground (arith, k.conns, ap main_conn e);
  bodies = ground (arith, k.bodies, ap main_body e);
  few = k.few;
}
Step-Kept c max_attempts {s} (attempt_moves i mv) k = AttemptMove-Kept c s.main mv k

Reach-Kept :
    (c max_attempts : ℕ) {pooled : HedgeState Dialed} {n : ℕ} {s : System}
    → Reach max_attempts pooled n s
    → pooled.res_ch ≡ none
    → Kept c s.shared s.main
Reach-Kept c max_attempts start e = record {
  conns = rw e refl;
  bodies = rw e refl;
  few = omega arith;
}
Reach-Kept c max_attempts (later r st) e =
    Step-Kept c max_attempts st (Reach-Kept c max_attempts r e)

-- Every connection that the attempts of a hedged dial have made, with the handshake's body, is in
-- exactly one place: closed by the attempt, in the channel, with the coordinator, which keeps the
-- connection of the winner and closes its body as its last step, or dropped with the state when that
-- went back to the pool, and then nobody closes it. At most one result is dropped. The state had an
-- empty channel, and the attempts are fewer than 2 ^ 32 - 1.
pub dialed_kept :
    (c max_attempts : ℕ) {pooled : HedgeState Dialed} {n : ℕ} {s : System}
    → Reach max_attempts pooled n s
    → pooled.res_ch ≡ none
    → 1 ≤ max_attempts
    → suc max_attempts < 2 ^ 32
    → let a = s.shared in
      (in_results (λ d. d.conn) c a.finished
        ≡ occurrences c a.closed
          + in_result (λ d. d.conn) c a.state.res_ch
          + in_result (λ d. d.conn) c (main_conn s.main)
          + in_results (λ d. d.conn) c a.dropped)
      × (in_results (λ d. d.body) c a.finished
          ≡ occurrences c a.released
            + in_result (λ d. d.body) c a.state.res_ch
            + in_result (λ d. d.body) c (main_body s.main)
            + in_results (λ d. d.body) c a.dropped)
      × (length a.dropped ≤ 1)
dialed_kept c max_attempts {s = s} r e h small =
    let k = Reach-Kept c max_attempts r e in
    let once = (dial-IsRun max_attempts r e h small).3 in
    (
      k.conns,
      k.bodies,
      elim once [
        | inl none_yet ↦ omega (arith, k.few, ap length none_yet)
        | inr one ↦ omega (arith, k.few, ap length one)
      ],
    )
