-- ===== src/Mempool/Pipeline/Account.antt =====
-- Where the transactions of a call of ProposeBlock are: each is in one place at any time.
use inca_go.Base.{
  ℕ, ◌+◌, ◌≡◌, refl, subst, inl, inr, Bool, true, false, length, ltb, if◌then◌else◌, Option, none,
  some, List, [], ◌∷◌, ◌++◌, arith, Bool-cases, Option-cases,
}
use inca_go.Transactions.{Bytes}
use inca_go.Mempool.Pipe.{
  Setup, Fault, canceled, deadline_exceeded, other, Tx, Collector, dequeuing, offering, reporting,
  Resolver, unstarted, receiving, resolved, looking, checking, sending, abstained, proposal,
  errored, Main, preparing, looping, finishing, applying, returned, Pipe, Verdict, accepted,
  rejected, sys_fault, Event, dequeue, give_back, hand_id, close_txs, look_up, check_tx, prepare,
  finish, take_tx, take_err, see_done, end_loop, apply, expire, stop, remove_at, stop_with,
}
use inca_go.Mempool.Pipeline.{
  requeue_txs, return_with, collector_step, resolver_step, main_step, context_step, pipe_step,
  take_fault, apply_tx, conclude, poll_errors, poll_loop, give_up,
}
use inca_go.Mempool.Pipeline.Moves.{pipe_step-cases}
use inca_go.Mempool.Pipeline.Weights.{
  total, of_main, everywhere, total-append, remove_at-total, enqueue_tx-total, return_with-total,
  give_all_back,
}

module _ (c : Setup) (w : Bytes → ℕ) where
  collector-total :
      (ev : Event) (col : Collector) (s s' : Pipe)
      → s.collector ≡ col
      → collector_step c ev col s.stopped s ≡ some s'
      → everywhere w s' ≡ everywhere w s
  unfolding collector_step
  collector-total (dequeue i) dequeuing s s' e h = elim (Option-cases (remove_at i s.pool)) [
    | inl missing ↦ ground (arith, missing)
    | inr ((id, rest), hit) ↦ ground (arith, hit, remove_at-total w i s.pool rest id hit)
  ]
  collector-total give_back (offering id) s s' e h = elim (Option-cases s.stopped) [
    | inl live ↦ ground (arith, live)
    | inr (f, over) ↦
        ground (arith, over, enqueue_tx-total c w id (record s { collector = reporting (some f) }))
  ]
  collector-total ev col s s' e h = ground arith

  give_up-total :
      (f : Fault) (id : Bytes) (s : Pipe) → everywhere w (give_up c f id s) ≡ w id + everywhere w s
  give_up-total canceled id s = enqueue_tx-total c w id s
  give_up-total deadline_exceeded id s = enqueue_tx-total c w id s
  give_up-total other id s = omega arith

  resolver-total :
      (ev : Event) (r : Resolver) (col : Collector) (s s' : Pipe)
      → s.resolver ≡ r
      → s.collector ≡ col
      → resolver_step c ev r col s ≡ some s'
      → everywhere w s' ≡ everywhere w s
  unfolding resolver_step
  resolver-total hand_id receiving (offering id) s s' e e' h = ground arith
  resolver-total (look_up none) (looking id) col s s' e e' h = ground arith
  resolver-total (look_up (some f)) (looking id) col s s' e e' h =
      ground (arith, give_up-total f id (record s { resolver = receiving }))
  resolver-total (check_tx accepted) (checking id tx) col s s' e e' h = ground arith
  resolver-total (check_tx rejected) (checking id tx) col s s' e e' h = ground arith
  resolver-total (check_tx (sys_fault f)) (checking id tx) col s s' e e' h = ground (
    arith,
    enqueue_tx-total c w id (record s {
      resolver = resolved;
      err_ch = s.err_ch ++ some f ∷ [];
      stopped = stop_with canceled s.stopped;
    }),
  )
  resolver-total close_txs (sending id tx) col s s' e e' h =
      ground (arith, enqueue_tx-total c w id (record s { resolver = resolved }))
  resolver-total ev r col s s' e e' h = ground arith

  take_fault-total :
      (f : Fault) (ids : List Bytes) (s : Pipe)
      → everywhere w (take_fault c f ids s) + of_main w s.main ≡ everywhere w s
  unfolding take_fault
  take_fault-total canceled [] s = return_with-total c w abstained s
  take_fault-total canceled (id ∷ ids) s = give_all_back c w (errored canceled) s
  take_fault-total deadline_exceeded ids s = give_all_back c w (errored deadline_exceeded) s
  take_fault-total other ids s = give_all_back c w (errored other) s

  conclude-stored :
      (stored : Bool) (s : Pipe)
      → total w s.proposed ≡ 0
      → everywhere w (
            if stored
            then return_with c proposal (record s { proposed = s.applied; applied = [] })
            else return_with c (errored other) (requeue_txs c s))
          + of_main w s.main
        ≡ everywhere w s
  conclude-stored true s fresh = omega (
    arith,
    fresh,
    return_with-total c w proposal (record s { proposed = s.applied; applied = [] }),
  )
  conclude-stored false s fresh = give_all_back c w (errored other) s

  conclude-total :
      (stored : Bool) (s : Pipe)
      → total w s.proposed ≡ 0
      → everywhere w (conclude c stored s) + of_main w s.main ≡ everywhere w s
  unfolding conclude
  conclude-total stored s fresh = elim (Bool-cases (ltb (length s.refs) c.opts.min_txs)) [
    | inl few ↦ rw few (give_all_back c w abstained s)
    | inr enough ↦ rw enough (conclude-stored stored s fresh)
  ]

  apply-total :
      (tx : Tx) (v : Verdict) (now : ℕ) (s : Pipe)
      → s.main ≡ applying tx
      → everywhere w (apply_tx c tx v now s) ≡ everywhere w s
  unfolding apply_tx
  apply-total tx accepted now s e = ground (arith, total-append w s.applied (tx.id ∷ []))
  apply-total tx rejected now s e = ground arith
  apply-total tx (sys_fault f) now s e =
      let s1 : Pipe = record s { applied = s.applied ++ tx.id ∷ [] } in
      ground (arith, give_all_back c w (errored f) s1, total-append w s.applied (tx.id ∷ []))

  poll_errors-total :
      (stored : Bool) (ch : List (Option Fault)) (s : Pipe)
      → s.main ≡ finishing
      → total w s.proposed ≡ 0
      → everywhere w (poll_errors c stored ch s) ≡ everywhere w s
  unfolding poll_errors
  poll_errors-total stored [] s e fresh = ground (arith, conclude-total stored s fresh)
  poll_errors-total stored (none ∷ ch) s e fresh =
      ground (arith, conclude-total stored (record s { err_ch = ch }) fresh)
  poll_errors-total stored (some f ∷ ch) s e fresh =
      let s1 : Pipe = record s { err_ch = ch; lost = s.applied ++ s.lost; applied = [] } in
      ground (arith, return_with-total c w (errored f) s1, total-append w s.applied s.lost)

-- A transaction that the resolver holds is what the database has under the id that it has received.
abbrev pub Found : Setup → Resolver → Type 0
Found c (checking id tx) = c.get_tx id ≡ some tx
Found c (sending id tx) = c.get_tx id ≡ some tx
Found c _ = Unit

-- No block is proposed before the call returns.
abbrev pub Fresh : Main → List Bytes → Type 0
Fresh (returned o) ids = Unit
Fresh _ ids = ids ≡ []

pub record IsSound (c : Setup) (s : Pipe) : Type 0 where
  pub found : Found c s.resolver
  pub fresh : Fresh s.main s.proposed

-- A weight by which a transaction counts the same under its own id, which is the one that requeueTxs
-- enqueues, and under the id that the database has it under.
abbrev pub Respects : Setup → (Bytes → ℕ) → Type 0
Respects c w = (id : Bytes) (tx : Tx) → c.get_tx id ≡ some tx → w tx.id ≡ w id

module _ (c : Setup) (w : Bytes → ℕ) (respects : Respects c w) where
  poll_loop-total :
      (ch : List (Option Fault)) (s s' : Pipe)
      → s.main ≡ looping
      → poll_loop c ch s ≡ some s'
      → everywhere w s' ≡ everywhere w s
  unfolding poll_loop
  poll_loop-total [] s s' e h = ground arith
  poll_loop-total (none ∷ ch) s s' e h = ground arith
  poll_loop-total (some f ∷ ch) s s' e h =
      ground (arith, take_fault-total c w f s.applied (record s { err_ch = ch }))

  main-total :
      (ev : Event) (m : Main) (r : Resolver) (s s' : Pipe)
      → s.main ≡ m
      → s.resolver ≡ r
      → IsSound c s
      → main_step c ev m r s ≡ some s'
      → everywhere w s' ≡ everywhere w s
  unfolding main_step
  main-total (prepare true) preparing unstarted s s' e e' sound h = ground arith
  main-total (prepare false) preparing r s s' e e' sound h =
      ground (arith, return_with-total c w (errored other) s)
  main-total take_tx looping (sending id tx) s s' e e' sound h =
      let there : c.get_tx id ≡ some tx = subst (λ r. Found c r) e' sound.found in
      ground (arith, respects id tx there)
  main-total take_err looping r s s' e e' sound h = poll_loop-total s.err_ch s s' e h
  main-total see_done looping r s s' e e' sound h = elim (Option-cases s.outer) [
    | inl live ↦ ground (arith, live)
    | inr (f, over) ↦ ground (arith, over, give_all_back c w (errored f) s)
  ]
  main-total end_loop looping resolved s s' e e' sound h = ground arith
  main-total (apply v now) (applying tx) r s s' e e' sound h =
      ground (arith, apply-total c w tx v now s e)
  main-total (finish stored) finishing r s s' e e' sound h =
      let empty : s.proposed ≡ [] = subst (λ m. Fresh m s.proposed) e sound.fresh in
      let none_yet : total w s.proposed ≡ 0 = rw empty refl in
      ground (arith, poll_errors-total c w stored s.err_ch s e none_yet)
  main-total ev m r s s' e e' sound h = ground arith

  context-total :
      (ev : Event) (s s' : Pipe) → context_step c ev s ≡ some s' → everywhere w s' ≡ everywhere w s
  unfolding context_step
  context-total expire s s' h = ground arith
  context-total (stop f) s s' h = ground arith
  context-total ev s s' h = ground arith

  pub step-total :
      (ev : Event) (s s' : Pipe)
      → IsSound c s
      → pipe_step c ev s ≡ some s'
      → everywhere w s' ≡ everywhere w s
  step-total ev s s' sound h =
      pipe_step-cases c {P = everywhere w s' ≡ everywhere w s} ev s s'
        (collector-total c w ev s.collector s s' refl)
        (resolver-total c w ev s.resolver s.collector s s' refl refl)
        (main-total ev s.main s.resolver s s' refl refl sound) (context-total ev s s') h
