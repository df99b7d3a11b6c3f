-- ===== src/Grpc/Hedge.antt =====
-- rgrpc/hedge.go: the hedge middleware, as a relation between a request and the errors with which it
-- may end. The attempts share the world, so that each may find any.
use resili.Prelude.{ℕ, ◌≤◌, ◌≡◌, ◌⊎◌, inl, inr, ap, ℤ, pos, Option, none, some, List, ◌<ℤ◌, length}
use resili.Errors.{Err, Outcome}
use resili.Hedge.{HedgeState}
use resili.Hedge.Execute.{Execute}
use resili.Hedge.Replies.{All, Execute-All}
use resili.Retry.Execute.{rounds}
use resili.Grpc.{Request, Handler}

module _ {X C W : Type 0} where
  abbrev pub ReplyOf : Handler X C W → Request X C W → Outcome (Request X C W) → Type 0
  ReplyOf next req (r, err) =
      (ctx : X) × (w : W) × (r ≡ record req { ctx = ctx }) × ((next r w).0 ≡ err)

  -- NewHedgeMiddleware of rgrpc/, which returns the error only. `zero_value` is the zero value of
  -- Request.
  pub data Hedged (delay max_attempts : ℤ) (zero_value : Request X C W) (ctx_err : Err)
      (pooled : HedgeState (Request X C W)) (next : Handler X C W) (req : Request X C W)
      : ℕ → Option Err → Type 0 where
    hedged :
        {finished : List (Outcome (Request X C W))} (out : Outcome (Request X C W))
        → All (ReplyOf next req) finished
        → Execute delay max_attempts zero_value ctx_err pooled finished out
        → Hedged delay max_attempts zero_value ctx_err pooled next req (length finished) out.1

  -- A call ends as the next handler ended it under some context, or with the error of its own context;
  -- and the next handler is asked at most maxAttempts times, or once. The state had an empty channel,
  -- and the attempts are fewer than 2 ^ 32 - 1.
  pub grpc_replies :
      (delay max_attempts : ℤ) (zero_value : Request X C W) (ctx_err : Err)
      {pooled : HedgeState (Request X C W)} (next : Handler X C W) (req : Request X C W) {n : ℕ}
      {err : Option Err}
      → Hedged delay max_attempts zero_value ctx_err pooled next req n err
      → pooled.res_ch ≡ none
      → max_attempts <ℤ pos 4_294_967_295
      → (((ctx : X) × (w : W) × ((next (record req { ctx = ctx }) w).0 ≡ err))
          ⊎ (err ≡ some ctx_err))
        × (n ≤ rounds max_attempts)
  grpc_replies delay max_attempts zero_value ctx_err next req (hedged out all ex) e small =
      let (how, few) =
        Execute-All delay max_attempts zero_value ctx_err out (ReplyOf next req) ex all e small in
      (
        elim how [
          | inl (ctx, w, same, gave) ↦ inl (ctx, w, rw same at gave)
          | inr gave_up ↦ inr (ap (λ (o : Outcome (Request X C W)). o.1) gave_up)
        ],
        few,
      )
