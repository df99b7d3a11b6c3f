-- ===== src/Http/Client/Accounts/Bodies.antt =====
-- rhttp/client.go: the bodies of the responses, with the hedge middleware as well.
use resili.Prelude.{
  ℕ, ◌+◌, ◌≤◌, ◌≡◌, inl, inr, ℤ, Option, none, some, List, [], ◌∷◌, arith, pos, ltb, ltb_ℤ,
  if◌then◌else◌, Bool, true, false, ap, ◌&&◌, not, occurrences, Bool-cases,
}
use resili.Hedge.Replies.{All, Execute-All}
use resili.Http.Middleware.{Handler, Request, Reply}
use resili.Http.Hedge.{attempt}
use resili.Http.Client.{wrap, wrap_attempts, new_client, wrap_hedge_with_retry_limit}
use resili.Http.Client.Accounts.{
  World, Retrying, serve, body_is, IsWithin, IsAccounted, HandlerAnswers, serve-answers,
}
use resili.Http.Client.Accounts.Requests.{
  Choice, is_untimed, after_requests, retry_of, bodies_in, IsWithin-eq, outer-answers,
  retry-wrapped, requests-IsAccounted,
}
use resili.Http.Client.Accounts.Hedging.{Hedging, attempts, hedge_of, hedged_pipeline}

-- How many of the replies have the body `c`.
abbrev reply_bodies : ℕ → List Reply → ℕ
reply_bodies c [] = 0
reply_bodies c (reply ∷ replies) = body_is c reply.0 + reply_bodies c replies

reply_bodies-All :
    (c : ℕ) (replies : List Reply) (n : ℕ)
    → reply_bodies c replies ≤ n
    → All (λ (reply : Reply). body_is c reply.0 ≤ n) replies
reply_bodies-All c [] n h = tt
reply_bodies-All c (reply ∷ replies) n h = (omega arith, reply_bodies-All c replies n (omega arith))

module _ {Q X : Type 0} (with_context : X → Q → Q) (c : ℕ) where
  attempts-IsAccounted :
      (next : Handler Q World)
      → ((held : ℕ) → HandlerAnswers false c held next)
      → (req : Request Q) (ctxs : List X) (held : ℕ) (w : World) → IsAccounted false c held none w
      → let (replies, w') = attempts with_context next req ctxs w in
        IsAccounted false c (held + reply_bodies c replies) none w'
  unfolding attempts
  attempts-IsAccounted next answers req [] held w h = omega arith
  attempts-IsAccounted next answers req (ctx ∷ ctxs) held w h =
      let (reply, w₁) = next (attempt with_context ctx req) w in
      omega (
        arith,
        attempts-IsAccounted next answers req ctxs (held + body_is c reply.0) w₁
            (omega (arith, answers held (attempt with_context ctx req) w h)),
      )

  -- The reply that the caller of the race gets holds no body that no attempt got.
  raced-le :
      (h : Hedging with_context) (next : Handler Q World) (req : Request Q) (w : World)
      → body_is c (h.middleware next req w).0.0
        ≤ reply_bodies c (attempts with_context next req (h.races next req w).ctxs w).0
  raced-le h next req w =
      let r = h.races next req w in
      let replies = (attempts with_context next req r.ctxs w).0 in
      elim (Execute-All h.delay h.max_attempts none r.ctx_err (h.middleware next req w).0
        (λ (reply : Reply). body_is c reply.0 ≤ reply_bodies c replies) r.race
        (reply_bodies-All c replies (reply_bodies c replies) (omega arith)) r.empty h.few).0 [
          | inl one ↦ one
          | inr gave_up ↦ omega (arith, ap (λ (reply : Reply). body_is c reply.0) gave_up)
        ]

  hedge-answers :
      (h : Hedging with_context) (held : ℕ) (next : Handler Q World)
      → ((held : ℕ) → HandlerAnswers false c held next)
      → HandlerAnswers false c held (h.middleware next)
  hedge-answers h held next answers req w start =
      let r = h.races next req w in
      rw (← r.after) (
        omega
          (arith, raced-le h next req w, attempts-IsAccounted next answers req r.ctxs held w start))

  -- Whether the requests are hedged.
  abbrev pub is_hedged : Option (Hedging with_context) → Option Retrying → ℤ → Bool
  is_hedged none retry limit = false
  is_hedged (some h) none limit = true
  is_hedged (some h) (some policy) limit = ltb_ℤ (pos 0) limit

  -- A claim for all responses is one for at least none.
  lossy :
      (b : Bool) (held : ℕ) (next : Handler Q World)
      → HandlerAnswers false c held next
      → HandlerAnswers (b && false) c held next
  lossy true held next answers = answers
  lossy false held next answers = answers

  inner-answers :
      (b : Bool) (hedge : Option (Hedging with_context)) (retry : Option Retrying) (limit : ℤ)
      (held : ℕ)
      → HandlerAnswers
          (b && not (is_hedged hedge retry limit))
          c
          held
          (wrap_attempts (hedge_of with_context hedge) (retry_of retry) limit serve)
  unfolding wrap_hedge_with_retry_limit
  inner-answers b none none limit held = serve-answers c held (b && true)
  inner-answers b none (some policy) limit held =
      retry-wrapped c held (b && true) serve (serve-answers c held (b && true)) (some policy)
  inner-answers b (some h) none limit held =
      lossy b held (h.middleware serve)
        (hedge-answers h held serve (λ held'. serve-answers c held' false))
  inner-answers b (some h) (some policy) limit held = elim (Bool-cases (ltb_ℤ (pos 0) limit)) [
    | inl both ↦ rw both (
        lossy b held (wrap (retry_of (some policy)) (h.middleware serve)) (
          retry-wrapped c held false (h.middleware serve)
            (hedge-answers h held serve (λ held'. serve-answers c held' false)) (some policy)))
    | inr alone ↦
        rw alone
          (retry-wrapped c held (b && true) serve (serve-answers c held (b && true)) (some policy))
  ]

  -- A new client with any of the middlewares, the retry one with a policy or none, which has a
  -- budget or none, and any number of requests, one after the other: whatever the server answers
  -- and the clock shows, no response body is closed twice, none that a response of the caller holds
  -- has been closed, none is in two of them, and none is closed or held that was not opened.
  -- Without the timeout middleware and without hedging moreover none leaks: each body that was
  -- opened is in a response of the caller or was closed, once. With the retry middleware and no
  -- positive RetryHedgeFanoutLimit there is no hedging.
  pub client_bodies :
      (choice : Choice) (hedge : Option (Hedging with_context)) (limit : ℤ) (qs : List (Option Q))
      (w : World)
      → w.made ≡ 0
      → w.closed ≡ []
      → let (resps, w') =
          after_requests (new_client (hedged_pipeline with_context choice hedge limit)) qs w in
        IsWithin
          (is_untimed choice.timeout && not (is_hedged hedge choice.retry limit))
          (occurrences c w'.closed + bodies_in c resps)
          (if ltb c w'.made then 1 else 0)
  unfolding new_client
  client_bodies choice hedge limit qs w m d = IsWithin-eq exact _ (omega arith) (
      requests-IsAccounted c exact _
        (λ held.
          outer-answers c held plain choice _
            (inner-answers (is_untimed choice.timeout) hedge choice.retry limit held))
        qs 0 w (start exact))
    where
      plain : Bool
      plain = not (is_hedged hedge choice.retry limit)

      exact : Bool
      exact = is_untimed choice.timeout && plain

      start : (exact : Bool) → IsAccounted exact c 0 none w
      start true = ground arith
      start false = ground arith
