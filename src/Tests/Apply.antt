-- ===== src/Tests/Apply.antt =====
-- The theorems on the applications, on stores that number the states and where message 9 is lost.
use mathlib.Core.List.Perm
use mathlib.Core.Quot
use inca_go.Base.{true, ◌+◌, ◌-◌, ◌≡◌, refl, none, some, [], ◌∷◌, arith, ◌==◌, if◌then◌else◌}
use inca_go.Wire.{Ref, app}
use inca_go.Result.{ok, err, unresolved}
use inca_go.Transactions.{Transaction}
use inca_go.Block.{Block}
use inca_go.Apps.{apply_all}
use inca_go.Apps.Chat
use inca_go.Apps.Mock
use inca_go.Apps.Counter
use inca_go.Tests.{block, header, snapshot}

abbrev tx : Ref → Transaction
tx r = record {
  id = 97 ∷ [];
  node_message = record {
    message_type = app;
    genesis_ref = 50;
    prev_msg_ref = 0;
    inner_ref = r;
    timestamp = 5;
    app_message_type = 3;
    pub_key = 7;
  };
  node_message_ref = some 40;
  inner_ref = r;
}

abbrev chat_store : Chat.ChatStore
chat_store = record {
  follow_transaction = λ r. if r == 9 then none else some r;
  follow_state = λ r. some (record { message_count = r - 1 });
  store_state = λ s. some (s.message_count + 1);
}

-- Message 9 is not counted.
chat-apply_all_example :
    (apply_all (Chat.chat chat_store) (record { message_count = 5 }) (tx 9 ∷ tx 8 ∷ [])
      ≡ ok (record { message_count = 6 }))
    × (apply_all (Chat.chat chat_store) (record { message_count = 5 }) (tx 8 ∷ tx 9 ∷ [])
        ≡ ok (record { message_count = 6 }))
unfolding Chat.after_block Chat.resolved_count
chat-apply_all_example =
    Chat.chat-apply_all chat_store (record { message_count = 5 }) (tx 9 ∷ tx 8 ∷ [])
      (tx 8 ∷ tx 9 ∷ []) (omega arith) (Quot.sound (Perm.swap (tx 8) (tx 9) []))

one_counted :
    apply_all (Chat.chat chat_store) (record { message_count = 5 }) (tx 9 ∷ tx 8 ∷ [])
    ≡ ok (record { message_count = 6 })
unfolding apply_all Chat.chat
one_counted = refl

abbrev mock_store : Mock.MockStore
mock_store = record {
  follow_transaction = λ r. if r == 9 then none else some (1 ∷ r ∷ []);
  follow_state = λ r. none;
  store_state = λ s. none;
}

abbrev fresh : Mock.AppState
fresh = record { applied_tx_count = 1; applied_tx_size = 3; last_tx_data = [] }

mock-apply_all_example :
    apply_all (Mock.mock mock_store) fresh (tx 8 ∷ tx 4 ∷ [])
    ≡ ok (record { applied_tx_count = 3; applied_tx_size = 7; last_tx_data = 1 ∷ 4 ∷ [] })
unfolding Mock.datas
mock-apply_all_example =
    Mock.mock-apply_all mock_store fresh (tx 8 ∷ tx 4 ∷ []) (omega arith) (omega arith)

one_lost : apply_all (Mock.mock mock_store) fresh (tx 8 ∷ tx 9 ∷ tx 4 ∷ []) ≡ err unresolved
unfolding apply_all Mock.mock
one_lost = refl

abbrev counter_store : Counter.CounterStore
counter_store = record {
  present = true;
  follow_state = λ r. some (record { counter_val = r - 1 });
  store_state = λ s. some (s.counter_val + 1);
}

counter_store-Restores : Counter.Restores counter_store
counter_store-Restores = record { found = λ s r h. ground arith; not_nil = λ s r h. ground arith }

-- The blocks of the counter have the states 0, 2 and 3.
abbrev counts : Ref → Block
counts r = block 2 (record (header 1 1 1) { state_ref = r })

counts-Above : Counter.Above counter_store (counts 0) 2 (counts 3)
unfolding Counter.propose_block
counts-Above =
    Counter.next 1 (counts 2) (counts 3) (snapshot 0)
      (Counter.next 0 (counts 0) (counts 2) (snapshot 0) Counter.base refl) refl

blocks_counted : Counter.get_state counter_store (counts 3) ≡ ok (record { counter_val = 2 })
unfolding Counter.get_state
blocks_counted =
    Counter.Above-counter counter_store (counts 0) (counts 3) 2 0 counter_store-Restores
      (omega arith) refl counts-Above
