-- ===== src/Http/Client/Accounts/Hedging.antt =====
-- rhttp/hedge.go in the chain of a client: a hedge middleware whose attempts reach the next handler one
-- after the other, in the order in which they end. Those that end after the call has returned count too.
use resili.Prelude.{◌≡◌, ◌≤◌, ℤ, pos, Option, none, some, List, [], ◌∷◌, ◌<ℤ◌, length}
use resili.Errors.{Err}
use resili.Hedge.{HedgeState}
use resili.Hedge.Execute.{Execute}
use resili.Hedge.Replies.{All, Execute-All}
use resili.Retry.Execute.{rounds}
use resili.Http.Classifier.{Response}
use resili.Http.Middleware.{Handler, Middleware, Request, Reply}
use resili.Http.Hedge.{attempt}
use resili.Http.Client.{Pipeline}
use resili.Http.Client.Accounts.{World}
use resili.Http.Client.Accounts.Requests.{Choice, pipeline}

module _ {Q X : Type 0} (with_context : X → Q → Q) where
  -- The attempts with these contexts, the replies that they get, and the world after them.
  unfoldable pub attempts : Handler Q World → Request Q → List X → World → List Reply × World
  attempts next req [] w = ([], w)
  attempts next req (ctx ∷ ctxs) w =
      let (reply, w₁) = next (attempt with_context ctx req) w in
      let (replies, w₂) = attempts next req ctxs w₁ in (reply ∷ replies, w₂)

  -- What a hedge middleware has done in the world `w`: a run of the race of hedge/hedge.go.
  pub record Raced (delay max_attempts : ℤ) (next : Handler Q World) (req : Request Q) (w : World)
      (out : Reply × World) : Type 0 where
    pub ctxs : List X
    pub ctx_err : Err
    pub pooled : HedgeState (Option Response)
    pub empty : pooled.res_ch ≡ none
    pub after : (attempts next req ctxs w).1 ≡ out.1
    pub race : Execute delay max_attempts none ctx_err pooled (attempts next req ctxs w).0 out.0

  -- A middleware of NewHedgeMiddleware.
  pub record Hedging : Type 0 where
    pub delay : ℤ
    pub max_attempts : ℤ
    pub few : max_attempts <ℤ pos 4_294_967_295
    pub middleware : Middleware Q World
    pub races :
        (next : Handler Q World) (req : Request Q) (w : World)
        → Raced delay max_attempts next req w (middleware next req w)

  abbrev pub hedge_of : Option Hedging → Option (Middleware Q World)
  hedge_of none = none
  hedge_of (some h) = some h.middleware

  abbrev pub hedged_pipeline : Choice → Option Hedging → ℤ → Pipeline Q World
  hedged_pipeline choice hedge limit = record (pipeline choice) {
    hedge = hedge_of hedge;
    retry_hedge_fanout_limit = limit;
  }

  -- The race asks for no more attempts than it may.
  pub Raced-few :
      (h : Hedging) (next : Handler Q World) (req : Request Q) (w : World)
      → length (attempts next req (h.races next req w).ctxs w).0 ≤ rounds h.max_attempts
  Raced-few h next req w =
      let r = h.races next req w in
      (Execute-All h.delay h.max_attempts none r.ctx_err (h.middleware next req w).0 (λ _. Unit)
        r.race (all_of (attempts next req r.ctxs w).0) r.empty h.few).1
    where
      all_of : (replies : List Reply) → All (λ _. Unit) replies
      all_of [] = tt
      all_of (reply ∷ replies) = (tt, all_of replies)
