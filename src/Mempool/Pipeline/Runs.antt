-- ===== src/Mempool/Pipeline/Runs.antt =====
-- What holds of ProposeBlock over every schedule of its goroutines, and where it loses transactions
-- or waits for ever.
use inca_go.Base.{
  ◌≡◌, refl, ◌⊎◌, inl, inr, Bool, false, Option, none, some, List, [], ◌∷◌, ◌++◌, arith,
}
use inca_go.Mempool.Pipe.{
  Setup, Fault, waiting, receiving, errored, looping, finishing, returned, Pipe, Event, finish,
  expire, stop,
}
use inca_go.Mempool.Pipeline.{pipe_step, poll_errors, return_with, main_step}

module _ (c : Setup) where
  -- An error that is found behind the loop, such as that of a deadline, loses the applied
  -- transactions: the call fails, and they are neither in the pool nor in a block. The same error
  -- within the loop puts the pool's weight back.
  late_error_loses :
      (s : Pipe) (f : Fault) (ch : List (Option Fault)) (stored : Bool)
      → s.main ≡ finishing
      → s.err_ch ≡ some f ∷ ch
      → (s' : Pipe) × (pipe_step c (finish stored) s ≡ some s')
        × (s'.main ≡ returned (errored f))
        × (s'.pool ≡ s.pool)
        × (s'.proposed ≡ s.proposed)
        × (s'.lost ≡ s.applied ++ s.lost)
  unfolding pipe_step main_step poll_errors return_with
  late_error_loses s f ch stored here waits = (
    return_with c (errored f) (record s { err_ch = ch; lost = s.applied ++ s.lost; applied = [] }),
    ground arith,
    ground arith,
    ground arith,
    ground arith,
    ground arith,
  )

  -- Once the collector waits on an empty pool and the others wait for it, nothing but the end of a
  -- context moves the call, whatever the pool holds by then.
  waiting_stuck :
      (s s' : Pipe) (ev : Event)
      → s.collector ≡ waiting
      → s.resolver ≡ receiving
      → s.main ≡ looping
      → s.err_ch ≡ []
      → s.ids_closed ≡ false
      → s.stopped ≡ none
      → s.outer ≡ none
      → pipe_step c ev s ≡ some s'
      → (ev ≡ expire) ⊎ ((f : Fault) × (ev ≡ stop f))
  unfolding pipe_step
  waiting_stuck s s' expire a b m d i p o h = inl refl
  waiting_stuck s s' (stop f) a b m d i p o h = inr (f, refl)
  waiting_stuck s s' ev a b m d i p o h = ground arith
