-- ===== src/Http/Hedge.antt =====
-- rhttp/hedge.go: the hedge middleware, as a relation between a request and the replies that it may
-- get. The attempts share the world, so that each may find any.
use resili.Prelude.{ℕ, ◌≤◌, ◌≡◌, ◌⊎◌, ℤ, pos, Option, none, some, List, ◌<ℤ◌, length}
use resili.Errors.{Err}
use resili.Hedge.{HedgeState}
use resili.Hedge.Execute.{Execute}
use resili.Hedge.Replies.{All, Execute-All}
use resili.Retry.Execute.{rounds}
use resili.Http.Classifier.{Response}
use resili.Http.Middleware.{Request, Reply, Handler}

-- `with_context` is the method WithContext of *http.Request; a nil request stays as it is.
module _ {Q X : Type 0} (with_context : X → Q → Q) where
  abbrev pub attempt : X → Request Q → Request Q
  attempt ctx r = record r { req = elim r.req [ none ↦ none | some q ↦ some (with_context ctx q) ] }

module _ {Q X W : Type 0} (with_context : X → Q → Q) where
  abbrev pub ReplyOf : Handler Q W → Request Q → Reply → Type 0
  ReplyOf next req reply = (ctx : X) × (w : W) × ((next (attempt with_context ctx req) w).0 ≡ reply)

  -- NewHedgeMiddleware of rhttp/: the next handler is asked `n` times so far.
  pub data Hedged (delay max_attempts : ℤ) (ctx_err : Err) (pooled : HedgeState (Option Response))
      (next : Handler Q W) (req : Request Q) : ℕ → Reply → Type 0 where
    hedged :
        {finished : List Reply} (reply : Reply)
        → All (ReplyOf next req) finished
        → Execute delay max_attempts none ctx_err pooled finished reply
        → Hedged delay max_attempts ctx_err pooled next req (length finished) reply

  -- A request gets a reply that the next handler gave to it under some context, or no response with
  -- the error of its own context; and the next handler is asked at most maxAttempts times, or once.
  -- The state had an empty channel, and the attempts are fewer than 2 ^ 32 - 1.
  pub http_replies :
      (delay max_attempts : ℤ) (ctx_err : Err) {pooled : HedgeState (Option Response)}
      (next : Handler Q W) (req : Request Q) {n : ℕ} {reply : Reply}
      → Hedged delay max_attempts ctx_err pooled next req n reply
      → pooled.res_ch ≡ none
      → max_attempts <ℤ pos 4_294_967_295
      → (ReplyOf next req reply ⊎ (reply ≡ (none, some ctx_err))) × (n ≤ rounds max_attempts)
  http_replies delay max_attempts ctx_err next req (hedged reply all ex) e small =
      Execute-All delay max_attempts none ctx_err reply (ReplyOf next req) ex all e small
