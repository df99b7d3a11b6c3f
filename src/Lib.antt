-- ===== src/Lib.antt =====
-- resili7, a resilience pipeline for Go: a limiter, a circuit breaker, a timeout, a retry loop with a
-- budget, and the HTTP, gRPC and WebSocket adapters that compose them into clients.
--
-- Every protection is a function ExecuteWithResult around an action, here over any world `W` that the
-- action, the clock and other goroutines may change (Environment: Clock, Cell, Action). An error is a
-- value (Errors: the sentinels, errors.Join, errors.Is). Environment.Keeps says what it means that a
-- clock or a shared object keeps a property of the world, and that an action does, or answers by it;
-- the module Keeps of each protection is about its calls. int64 arithmetic wraps as Go's does
-- (Prelude.Int), and a uint64 counter is taken modulo 2 ^ 64.
--
-- - Breaker.State: breaker/breaker.go, the state of CircuitBreaker with its windows as a heap, its
--   options, and the sections of ExecuteWithResult: what it does before the action and after it, on
--   the fast path (count_request, count_failure, over_threshold, trip) and under the lock on the slow
--   path (admit, settle). Breaker.Execute puts them around the action, and Breaker.Execute.Spec is the
--   breaker as its documentation describes it. Breaker.Concurrent interleaves the sections of any
--   number of goroutines; rotating the window and counting a request is one step.
-- - Limiter.Options, Limiter.State: limiter/brr_options.go and limiter/brr.go, with Acquire, Done,
--   observeRTT, adjust and the turns of controlLoop as functions on the state, and a panic of adjust
--   as `none`. Limiter.Permits interleaves the atomic accesses of the loops of Acquire and Done,
--   and Limiter.Samples those of observeRTT.
--   Limiter.Execute: limiter/limiter.go.
-- - Retry.Budget: retry/budget.go, by calls, and by atomic accesses in Retry.Budget.Concurrent, with
--   the retries that are granted counted beside; the float64 ratio of NewBudget is an interface,
--   Float64. Retry.Policy: retry/policy.go. Retry.Execute: the loop of retry/retry.go, which recurs
--   on the turns left, with a turn as a function of its own.
-- - Timeout: timeout/timeout.go.
-- - Hedge: hedge/hedge.go, the state that a hedged call shares with its attempts. Hedge.Race is
--   ExecuteWithResultCtx with its attempts, as steps on what they share, in any order;
--   when a timer runs out and how long an attempt takes is open. Hedge.Execute is the whole call,
--   Hedge.Variants what wraps it, and Hedge.Timers the pool of timers.
-- - Http.Classifier: rhttp/classifier.go and the predicates of rhttp/retry.go. Http.Middleware: the
--   middlewares of rhttp/, and Client.Do. Http.Client: NewClient of rhttp/client.go,
--   and in Http.Client.Accounts a world in which each body has a name.
-- - Grpc: rgrpc/, the middlewares; Grpc.Status: the predicates of rgrpc/retry.go; Grpc.Client: the
--   interceptor of rgrpc/client.go.
-- - Ws: rws/handler.go and the middlewares; Ws.Retryable: the predicates of rws/retry.go; Ws.Timeout:
--   rws/timeout.go; Ws.Persistent: WsHandler and PersistentHandler of rws/client.go, and in
--   Ws.Persistent.Shared the latter with many goroutines; Ws.Dial: rws/hedge.go, as steps like those
--   of Hedge.Race, with what is closed and dropped; Ws.Client: NewClient and Send, and in
--   Ws.Client.Conns a world in which each connection has a name.
-- - Examples.Http: the program examples/http, in a world where time passes in the attempts, in the
--   sleeps, which may last longer than they are told to, and while the body is read, and nowhere else.
--
-- The loops that compare and swap end where nobody interferes, so by themselves they are plain
-- functions; with interference each access is a step. No function takes fuel: loops recur on lists and
-- counters.
--
-- The hedge middlewares are relations (Http.Hedge, Grpc.Hedge, Hedged of Ws.Dial), since their attempts
-- run at once; in the chain of a client a hedge middleware is any middleware, or, in
-- Http.Client.Accounts, one whose attempts reach the next handler one after the other, in the order in
-- which they end, the late ones included.
--
-- Not modelled: the programs examples/grpc and examples/ws, which only call the library; logging, the ticker, the
-- finalizer and the recovery of a panic of an action; float64, but for the interface named above.
-- net/http, grpc, gorilla/websocket and time are parameters: the handlers that call them, the closing
-- of a body, the operations of a connection and of a timer, and what they tell about an error. Test
-- modules hold each theorem at a concrete input.
pub mod Prelude
pub mod Retry
pub mod Limiter
pub mod Errors
pub mod Environment
pub mod Breaker
pub mod Timeout
pub mod Http
pub mod Hedge
pub mod Grpc
pub mod Ws
pub mod Examples
