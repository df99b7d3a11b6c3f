-- ===== src/Ws/Client/Conns/Reconnects.antt =====
-- rws/client.go and retry.go: a retry around the persistent handler, whose kept connection breaks.
use resili.Prelude.{ℕ, suc, ◌≡◌, ◌∙◌, ap, inl, inr, refl, true, pos, Option, none, some, ◌∷◌, arith}
use resili.Errors.{Err}
use resili.Retry.Policy.{RetryPolicy}
use resili.Retry.Execute.{RetryAction, Settings, settings, loop, rounds}
use resili.Retry.Execute.Recovery.{waited, second_succeeds}
use resili.Ws.{Response, Request, Reply, Handler, retry_action_of, new_retry_middleware}
use resili.Ws.Retryable.{CloseErrors, should_retry_default}
use resili.Ws.Persistent.{persistent_handler}
use resili.Ws.Client.Conns.{World, world_clock, kept_cell, sockets, connector}

-- The kept connection `old` breaks as it is read from: it is closed and forgotten.
record Breaks {D : Type 0} (old : ℕ) (err : Err) (w : World D) (o : Reply D × World D)
    : Type 0 where
  reply : o.0 ≡ (none, some err)
  forgotten : o.1.kept ≡ none
  closed : o.1.closed ≡ old ∷ w.closed
  wire : o.1.wire ≡ w.wire
  trips : o.1.trips ≡ suc w.trips
  dials : o.1.dials ≡ w.dials
  dialed : o.1.dialed ≡ w.dialed
  made : o.1.made ≡ w.made

-- A new connection is made, kept and answers.
record Answers {D : Type 0} (resp : Response D) (w : World D) (o : Reply D × World D) : Type 0 where
  reply : o.0 ≡ (some resp, none)
  kept : o.1.kept ≡ some w.made
  made : o.1.made ≡ suc w.made
  closed : o.1.closed ≡ w.closed
  trips : o.1.trips ≡ suc w.trips

abbrev pub handler : {D H : Type 0} → Handler D H (World D)
handler = persistent_handler world_clock sockets kept_cell connector

module _ {D H : Type 0} (r : Request D H) where
  handler-Breaks :
      (old : ℕ) (err : Err) (w : World D)
      → w.kept ≡ some old
      → w.wire w.trips ≡ (none, inr err)
      → Breaks old err w (handler r w)
  unfolding persistent_handler resili.Ws.Persistent.ws_handler
  handler-Breaks old err w k broken = ground arith

  handler-Answers :
      (resp : Response D) (w : World D)
      → r.conn ≡ none
      → w.kept ≡ none
      → w.dials w.dialed ≡ none
      → w.wire w.trips ≡ (none, inl resp)
      → Answers resp w (handler r w)
  unfolding persistent_handler resili.Ws.Persistent.ws_handler
  handler-Answers resp w own k dial good = ground arith

  -- Of a request without deadlines and without a connection of its own, under a policy of at least two
  -- attempts with no budget and no predicate of its own: if the kept connection breaks as the reply is
  -- read, by an error that is retried, and the next dial and roundtrip succeed, the caller gets that
  -- response. The broken connection is closed, once, the new one is kept, and there were two roundtrips.
  pub retry_reconnects :
      (errors : CloseErrors) (policy : RetryPolicy (World D) (Option (Response D))) (n old : ℕ)
      (err : Err) (resp : Response D) (w : World D)
      → r.conn ≡ none
      → r.request_deadline ≡ pos 0
      → policy.max_attempts ≡ pos (suc (suc n))
      → policy.should_retry ≡ none
      → policy.budget ≡ none
      → policy.try_deadline ≡ pos 0
      → w.kept ≡ some old
      → w.wire w.trips ≡ (none, inr err)
      → should_retry_default errors (some err) ≡ true
      → w.dials w.dialed ≡ none
      → w.wire (suc w.trips) ≡ (none, inl resp)
      → let (reply, w') = new_retry_middleware world_clock errors (some policy) handler r w in
        (reply ≡ (some resp, none))
        × (w'.kept ≡ some w.made)
        × (w'.made ≡ suc w.made)
        × (w'.closed ≡ old ∷ w.closed)
        × (w'.trips ≡ suc (suc w.trips))
  unfolding new_retry_middleware resili.Retry.Execute.execute_with_result settings
      resili.Ws.Retryable.is_success
  retry_reconnects errors policy n old err resp w own no_deadline many default no_budget no_try k
        broken retried dial good =
      rw both (
        ap (λ (o : Reply D). (o.0, none)) second.reply,
        second.kept ∙ ap some first.made,
        second.made ∙ ap suc first.made,
        second.closed ∙ first.closed,
        second.trips ∙ ap suc first.trips,
      )
    where
      action : RetryAction (World D) (Option (Response D))
      action = retry_action_of world_clock errors handler r

      s : Settings (World D) (Option (Response D))
      s = settings world_clock none action (some policy)

      first : Breaks old err w (handler r w)
      first = handler-Breaks old err w k broken

      second :
          Answers resp
            (waited world_clock none action s 0 w)
            (handler r (waited world_clock none action s 0 w))
      second =
          handler-Answers resp (waited world_clock none action s 0 w) own first.forgotten
            (rw (first.dials, first.dialed) dial) (rw (first.wire, first.trips) good)

      both : new_retry_middleware world_clock errors (some policy) handler r w ≡ (
        ((handler r (waited world_clock none action s 0 w)).0.0, none),
        (world_clock.now (handler r (waited world_clock none action s 0 w)).1).1,
      )
      both =
          ap (λ k. loop world_clock none action s k 0 r.now none w) (ap rounds many)
          ∙ second_succeeds world_clock none action s n 0 r.now none w
              (record {
                no_deadline = no_deadline;
                no_try_deadline = no_try;
                no_budget = no_budget;
              })
              (rw first.reply refl) (rw (default, first.reply) retried) (rw second.reply refl)
