-- ===== src/Mempool/Pipeline/Sound.antt =====
-- What holds of a call of ProposeBlock between two moves.
use inca_go.Base.{
  ℕ, ◌+◌, ◌≤◌, ◌<◌, ◌≡◌, ◌≢◌, refl, subst, inl, inr, Bool, true, false, Option, none, some, List,
  [], ◌∷◌, ◌++◌, arith, Option-cases, length, length-append,
}
use inca_go.Wire.{Ref}
use inca_go.Transactions.{Bytes}
use inca_go.Mempool.Pipe.{
  Setup, Fault, other, Tx, Collector, dequeuing, waiting, closing, collected, offering, reporting,
  Resolver, unstarted, receiving, resolved, looking, checking, sending, Outcome, proposal, errored,
  Main, preparing, looping, finishing, applying, returned, Pipe, Verdict, accepted, rejected,
  sys_fault, Event, dequeue, dequeue_failed, give_back, report, close_ids, hand_id, close_txs,
  look_up, check_tx, prepare, finish, take_tx, take_err, see_done, end_loop, apply, expire, stop,
}
use inca_go.Mempool.Pipeline.{
  enqueue_tx, enqueue_all, requeue_txs, return_with, collector_step, resolver_step, main_step,
  context_step, pipe_step, take_fault, apply_tx, conclude, poll_errors, poll_loop,
}
use inca_go.Mempool.Pipeline.Moves.{pipe_step-cases}
use inca_go.Mempool.Pipeline.Account.{Found, Fresh}

-- Whether a goroutine has a transaction in hand.
abbrev pub in_resolver : Resolver → ℕ
in_resolver (looking id) = 1
in_resolver (checking id tx) = 1
in_resolver (sending id tx) = 1
in_resolver _ = 0

abbrev pub in_main : Main → ℕ
in_main (applying tx) = 1
in_main _ = 0

-- The collector may take another transaction.
abbrev pub Collecting : Collector → Type 0
Collecting (reporting x) = ⊥
Collecting closing = ⊥
Collecting collected = ⊥
Collecting _ = Unit {0}

-- The transaction is in the database, under some id.
abbrev pub FromDb : Setup → Tx → Type 0
FromDb c tx = (id : Bytes) × (c.get_tx id ≡ some tx)

abbrev pub Held : Setup → Main → Type 0
Held c (applying tx) = FromDb c tx
Held c _ = Unit

-- The references are those of the messages of transactions of the database, of which the ids are the
-- ones of the list, in order.
pub data Refer (c : Setup) : List Bytes → List Ref → Type 0 where
  nothing : Refer c [] []
  one_more :
      (tx : Tx) (ids : List Bytes) (refs : List Ref)
      → FromDb c tx
      → Refer c ids refs
      → Refer c (ids ++ tx.id ∷ []) (refs ++ tx.message_ref ∷ [])

-- The transaction set has the applied transactions, and a proposed block enough of them.
abbrev pub Sized : Setup → Main → Pipe → Type 0
Sized c (returned proposal) s = Refer c s.proposed s.refs × (c.opts.min_txs ≤ length s.refs)
Sized c (returned o) s = Unit
Sized c _ s = Refer c s.applied s.refs

pub record Inv (c : Setup) (s : Pipe) : Type 0 where
  pub found : Found c s.resolver
  pub held : Held c s.main
  pub fresh : Fresh s.main s.proposed
  pub sized : Sized c s.main s
  pub capped :
      0 < c.opts.max_txs
      → length s.refs + in_resolver s.resolver + in_main s.main + s.left ≤ c.opts.max_txs
  pub live : 0 < c.opts.max_txs → Collecting s.collector → 0 < s.left

module _ (c : Setup) where
  -- Only the pool and the lost transactions change.
  enqueue_tx-rest :
      (id : Bytes) (s : Pipe)
      → enqueue_tx c id s
        ≡ record s { pool = (enqueue_tx c id s).pool; lost = (enqueue_tx c id s).lost }
  unfolding enqueue_tx
  enqueue_tx-rest id s = ground arith

  enqueue_all-rest :
      (ids : List Bytes) (s : Pipe)
      → enqueue_all c ids s
        ≡ record s { pool = (enqueue_all c ids s).pool; lost = (enqueue_all c ids s).lost }
  unfolding enqueue_all
  enqueue_all-rest [] s = refl
  enqueue_all-rest (id ∷ ids) s =
      ground (arith, enqueue_all-rest ids (enqueue_tx c id s), enqueue_tx-rest id s)

  collector-Inv :
      (ev : Event) (col : Collector) (s s' : Pipe)
      → s.collector ≡ col
      → Inv c s
      → collector_step c ev col s.stopped s ≡ some s'
      → Inv c s'
  unfolding collector_step
  collector-Inv (dequeue i) dequeuing s s' e inv h = ground arith
  collector-Inv dequeue_failed dequeuing s s' e inv h = ground arith
  collector-Inv give_back (offering id) s s' e inv h = ground arith
  collector-Inv give_back waiting s s' e inv h = ground arith
  collector-Inv report (reporting x) s s' e inv h = ground arith
  collector-Inv close_ids closing s s' e inv h = ground arith
  collector-Inv ev col s s' e inv h = ground arith

  resolver-Inv :
      (ev : Event) (r : Resolver) (col : Collector) (s s' : Pipe)
      → s.resolver ≡ r
      → s.collector ≡ col
      → Inv c s
      → resolver_step c ev r col s ≡ some s'
      → Inv c s'
  unfolding resolver_step
  resolver-Inv hand_id receiving (offering id) s s' e e' inv h = ground arith
  resolver-Inv (look_up none) (looking id) col s s' e e' inv h = elim (Option-cases (c.get_tx id)) [
    | inl missing ↦ ground (arith, missing)
    | inr (tx, there) ↦ ground (arith, there)
  ]
  resolver-Inv (look_up (some f)) (looking id) col s s' e e' inv h = ground arith
  resolver-Inv (check_tx v) (checking id tx) col s s' e e' inv h = ground arith
  resolver-Inv close_txs (sending id tx) col s s' e e' inv h = ground arith
  resolver-Inv ev r col s s' e e' inv h = ground arith

  requeue_txs-rest :
      (s : Pipe)
      → requeue_txs c s
        ≡ record s { pool = (requeue_txs c s).pool; lost = (requeue_txs c s).lost; applied = [] }
  unfolding requeue_txs
  requeue_txs-rest s = enqueue_all-rest s.applied (record s { applied = [] })

  -- A return without a block.
  return_with-Inv : (o : Outcome) (s : Pipe) → o ≢ proposal → Inv c s → Inv c (return_with c o s)
  unfolding return_with
  return_with-Inv o s differs inv = ground arith

  give_back-Inv :
      (o : Outcome) (s : Pipe) → o ≢ proposal → Inv c s → Inv c (return_with c o (requeue_txs c s))
  unfolding return_with
  give_back-Inv o s differs inv = ground (arith, requeue_txs-rest s)

  take_tx-Inv :
      (id : Bytes) (tx : Tx) (s : Pipe)
      → s.main ≡ looping
      → s.resolver ≡ sending id tx
      → Inv c s
      → Inv c (record s { main = applying tx; resolver = receiving })
  take_tx-Inv id tx s e e' inv = record {
    found = tt;
    held = (id, subst (λ r. Found c r) e' inv.found);
    fresh = subst (λ m. Fresh m s.proposed) e inv.fresh;
    sized = subst (λ m. Sized c m s) e inv.sized;
    capped = λ some_max. ground (arith, inv.capped some_max);
    live = inv.live;
  }

  apply-Inv :
      (tx : Tx) (v : Verdict) (now : ℕ) (s : Pipe)
      → s.main ≡ applying tx
      → Inv c s
      → Inv c (apply_tx c tx v now s)
  unfolding apply_tx
  apply-Inv tx accepted now s e inv =
      let held : FromDb c tx = subst (λ m. Held c m) e inv.held in
      let so_far : Refer c s.applied s.refs = subst (λ m. Sized c m s) e inv.sized in
      let more : Refer c (s.applied ++ tx.id ∷ []) (s.refs ++ tx.message_ref ∷ []) =
        one_more tx s.applied s.refs held so_far in
      ground (arith, more, length-append s.refs (tx.message_ref ∷ []))
  apply-Inv tx rejected now s e inv = ground arith
  apply-Inv tx (sys_fault f) now s e inv =
      ground (arith, requeue_txs-rest (record s { applied = s.applied ++ tx.id ∷ [] }))

  conclude-Inv :
      (stored : Bool) (s : Pipe) → s.main ≡ finishing → Inv c s → Inv c (conclude c stored s)
  unfolding conclude
  conclude-Inv stored s e inv = ground (arith, requeue_txs-rest s)

  poll_errors-Inv :
      (stored : Bool) (ch : List (Option Fault)) (s : Pipe)
      → s.main ≡ finishing
      → Inv c s
      → Inv c (poll_errors c stored ch s)
  unfolding poll_errors
  poll_errors-Inv stored [] s e inv = conclude-Inv stored s e inv
  poll_errors-Inv stored (none ∷ ch) s e inv =
      conclude-Inv stored (record s { err_ch = ch }) e (ground arith)
  poll_errors-Inv stored (some f ∷ ch) s e inv = ground arith

  poll_loop-Inv :
      (ch : List (Option Fault)) (s s' : Pipe)
      → s.main ≡ looping
      → Inv c s
      → poll_loop c ch s ≡ some s'
      → Inv c s'
  unfolding poll_loop take_fault
  poll_loop-Inv [] s s' e inv h = ground arith
  poll_loop-Inv (none ∷ ch) s s' e inv h = ground arith
  poll_loop-Inv (some f ∷ ch) s s' e inv h =
      ground (arith, requeue_txs-rest (record s { err_ch = ch }))

  main-Inv :
      (ev : Event) (m : Main) (r : Resolver) (s s' : Pipe)
      → s.main ≡ m
      → s.resolver ≡ r
      → Inv c s
      → main_step c ev m r s ≡ some s'
      → Inv c s'
  unfolding main_step
  main-Inv (prepare true) preparing unstarted s s' e e' inv h = ground arith
  main-Inv (prepare false) preparing r s s' e e' inv h =
      ground (arith, return_with-Inv (errored other) s (λ p. cc) inv)
  main-Inv take_tx looping (sending id tx) s s' e e' inv h =
      subst (λ x. Inv c x) (ground arith) (take_tx-Inv id tx s e e' inv)
  main-Inv take_err looping r s s' e e' inv h = poll_loop-Inv s.err_ch s s' e inv h
  main-Inv see_done looping r s s' e e' inv h = elim (Option-cases s.outer) [
    | inl live ↦ ground (arith, live)
    | inr (f, over) ↦
        subst (λ x. Inv c x) (ground (arith, over)) (give_back-Inv (errored f) s (λ p. cc) inv)
  ]
  main-Inv end_loop looping resolved s s' e e' inv h = ground arith
  main-Inv (apply v now) (applying tx) r s s' e e' inv h =
      subst (λ x. Inv c x) (ground arith) (apply-Inv tx v now s e inv)
  main-Inv (finish stored) finishing r s s' e e' inv h =
      subst (λ x. Inv c x) (ground arith) (poll_errors-Inv stored s.err_ch s e inv)
  main-Inv ev m r s s' e e' inv h = ground arith

  context-Inv : (ev : Event) (s s' : Pipe) → Inv c s → context_step c ev s ≡ some s' → Inv c s'
  unfolding context_step
  context-Inv expire s s' inv h = ground arith
  context-Inv (stop f) s s' inv h = ground arith
  context-Inv ev s s' inv h = ground arith

  pub pipe_step-Inv : (ev : Event) (s s' : Pipe) → Inv c s → pipe_step c ev s ≡ some s' → Inv c s'
  pipe_step-Inv ev s s' inv h =
      pipe_step-cases c {P = Inv c s'} ev s s' (collector-Inv ev s.collector s s' refl inv)
        (resolver-Inv ev s.resolver s.collector s s' refl refl inv)
        (main-Inv ev s.main s.resolver s s' refl refl inv) (context-Inv ev s s' inv) h
