-- ===== src/Mempool/Pipeline/Moves.antt =====
-- Which goroutine makes a move.
use inca_go.Base.{◌≡◌, some}
use inca_go.Mempool.Pipe.{
  Setup, Pipe, Event, dequeue, dequeue_failed, give_back, report, close_ids, hand_id, close_txs,
  look_up, check_tx, prepare, finish, take_tx, take_err, see_done, end_loop, apply, expire, stop,
}
use inca_go.Mempool.Pipeline.{collector_step, resolver_step, main_step, context_step, pipe_step}

-- A move is one of the collector, of the resolver, of the call itself or of the contexts.
pub pipe_step-cases {ℓ} :
    (c : Setup) {P : Type ℓ} (ev : Event) (s s' : Pipe)
    → (collector_step c ev s.collector s.stopped s ≡ some s' → P)
    → (resolver_step c ev s.resolver s.collector s ≡ some s' → P)
    → (main_step c ev s.main s.resolver s ≡ some s' → P)
    → (context_step c ev s ≡ some s' → P)
    → pipe_step c ev s ≡ some s'
    → P
unfolding pipe_step
pipe_step-cases c (dequeue i) s s' of_col of_res of_call of_ctx h = of_col h
pipe_step-cases c dequeue_failed s s' of_col of_res of_call of_ctx h = of_col h
pipe_step-cases c give_back s s' of_col of_res of_call of_ctx h = of_col h
pipe_step-cases c report s s' of_col of_res of_call of_ctx h = of_col h
pipe_step-cases c close_ids s s' of_col of_res of_call of_ctx h = of_col h
pipe_step-cases c hand_id s s' of_col of_res of_call of_ctx h = of_res h
pipe_step-cases c close_txs s s' of_col of_res of_call of_ctx h = of_res h
pipe_step-cases c (look_up a) s s' of_col of_res of_call of_ctx h = of_res h
pipe_step-cases c (check_tx v) s s' of_col of_res of_call of_ctx h = of_res h
pipe_step-cases c expire s s' of_col of_res of_call of_ctx h = of_ctx h
pipe_step-cases c (stop f) s s' of_col of_res of_call of_ctx h = of_ctx h
pipe_step-cases c (prepare b) s s' of_col of_res of_call of_ctx h = of_call h
pipe_step-cases c (finish b) s s' of_col of_res of_call of_ctx h = of_call h
pipe_step-cases c take_tx s s' of_col of_res of_call of_ctx h = of_call h
pipe_step-cases c take_err s s' of_col of_res of_call of_ctx h = of_call h
pipe_step-cases c see_done s s' of_col of_res of_call of_ctx h = of_call h
pipe_step-cases c end_loop s s' of_col of_res of_call of_ctx h = of_call h
pipe_step-cases c (apply v n) s s' of_col of_res of_call of_ctx h = of_call h
