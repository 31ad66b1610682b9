-- ===== src/Tests/Inbound.antt =====
-- The theorems on what comes from the network, at a block commit of the second block.
use inca_go.Base.{ℕ, ◌≡◌, refl, true, none, some, [], ◌∷◌, arith}
use inca_go.World.{World, get_block, write_block, get_segment_by_id}
use inca_go.Segment.Store.{new_segment}
use inca_go.Chain.{write_state}
use inca_go.Chain.New.{new_genesis, new_chain}
use inca_go.Peer.{get_peer, subscribe_messages, new_peer, process_incoming_pubsub_message}
use inca_go.Node.Inbox.{Inbox, Reader, Advances, process_pub_sub, process_pub_sub-Advances}
use inca_go.Integrity.{Sound, core}
use inca_go.Integrity.Life.{run, run-Sound}
use inca_go.Integrity.Network.{Arrival, receive_all, receive_all-Sound}
use inca_go.Tests.{env}
use inca_go.Tests.Genesis.{stores, args, chain_config, registry}
use inca_go.Tests.Life.{nothing, nothing-Empty, made}
use inca_go.Tests.Network.{said, remote, calls}

abbrev reader : Reader
reader = record {
  decode = λ dat. some (7, 33);
  decode_id = λ sender. some sender;
  follow_message = λ r. some (said 60);
  unmarshal_key = λ k. some k;
}

abbrev counted : Inbox ℕ
counted = record { peers = remote ∷ []; world = 0 }

process_pub_sub-Advances_example :
    Advances counted.peers
      (process_pub_sub env reader ((calls, some 1) ∷ (calls, none) ∷ []) counted).peers
process_pub_sub-Advances_example =
    process_pub_sub-Advances env reader ((calls, some 1) ∷ (calls, none) ∷ []) counted

-- The chain's handler has been called once.
handled : (process_pub_sub env reader ((calls, some 1) ∷ (calls, none) ∷ []) counted).world ≡ 1
unfolding process_pub_sub get_peer subscribe_messages new_peer process_incoming_pubsub_message
handled = refl

abbrev arrival : Arrival
arrival = record {
  validator = none;
  uid = 9;
  now = 100;
  timestamp_valid = λ t. true;
  state_written = true;
}

abbrev at_first : Inbox World
at_first = record { peers = remote ∷ []; world = made }

made-Sound : Sound env (core made)
unfolding run new_chain get_block new_segment write_block write_state get_segment_by_id
made-Sound =
    run-Sound env stores (λ k. true) registry (new_genesis args 60) args nothing made chain_config
      [] nothing-Empty (omega arith) refl tt

receive_all-Sound_example :
    Sound env (core (receive_all env reader ((arrival, some 1) ∷ []) at_first).world)
unfolding new_chain get_block new_segment write_block write_state get_segment_by_id
receive_all-Sound_example =
    receive_all-Sound env reader ((arrival, some 1) ∷ []) at_first made-Sound
      (record { not_nil = omega arith; not_stored = refl; not_loaded = refl }, tt)
