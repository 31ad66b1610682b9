-- ===== src/Chain/New/Load.antt =====
-- A chain that NewChain makes is the one that FromConfig loads.
use inca_go.Base.{ℕ, suc, ◌∙◌, ◌≡◌, refl, Bool, true, false, some, arith, length}
use inca_go.Wire.{Ref, Env}
use inca_go.Result.{Result, ok}
use inca_go.Transactions.{Bytes}
use inca_go.World.{World, done}
use inca_go.Encryption.{
  Strategy, Ctors, new_convergent_immutable_strategy, build_args, register_encryption_strategy_ctor,
  new_convergent_immutable_strategy_from_config, build_encryption_strategy,
}
use inca_go.Encryption.Registry.{build_args-strategy}
use inca_go.Chain.New.{Genesis, Config, Stores, NewArgs, new_chain, from_config}
use inca_go.Chain.New.Stored.{new_chain-Launched}
use inca_go.Chain.New.Start.{new_chain-Started}

-- The outside of a chain: the genesis can be followed once it is stored, and what the configuration of a strategy
-- is encoded to decodes to it.
pub record RoundTrips (st : Stores) (genesis : Genesis) (encode decode : Bytes → Result Bytes)
    : Type 0 where
  pub followed : (r : Ref) → st.store_genesis genesis ≡ some r → st.follow_genesis r ≡ some genesis
  pub config : (m w : Bytes) → encode m ≡ ok w → decode w ≡ ok m

-- After a restart, FromConfig on the configuration that NewChain returned gives the genesis and the
-- strategy with the key that was drawn, and the state of the chain as NewChain left it. The kind of
-- the strategy is registered, the key has 32 bytes and the database can be read.
pub from_config-new_chain :
    (e : Env) (st : Stores) (a : NewArgs) (w w' restarted : World) (conf : Config)
    (genesis : Genesis) (is_known : ℕ → Bool) (decode : Bytes → Result Bytes) (key : Bytes)
    (old new : Ctors)
    → RoundTrips st genesis a.encode decode
    → is_known a.strategy_kind ≡ true
    → register_encryption_strategy_ctor a.strategy_kind
        (new_convergent_immutable_strategy_from_config decode)
        old
      ≡ ok new
    → a.random ≡ ok key
    → length key ≡ 32
    → w.is_loaded a.uid ≡ false
    → new_chain e st a w ≡ done (conf, genesis) w'
    → restarted.stored_chain_state ≡ w'.stored_chain_state
    → e.db_fails restarted.accesses ≡ false
    → (w'' : World) × (from_config e st is_known new conf restarted
        ≡ done (record { key = key; pre_shared_key = key }, genesis) w'')
      × (w''.chain_state ≡ w'.chain_state)
unfolding from_config
from_config-new_chain e st a w w' restarted conf genesis is_known decode key old new trips known
      registered drawn size fresh made kept up =
    let l = new_chain-Launched e st a w w' conf genesis made in
    let started = (new_chain-Started e st a w w' conf genesis fresh made).0 in
    let strategy : Strategy = record { key = key; pre_shared_key = key } in
    let encoded : a.encode key ≡ ok conf.encryption_args =
      ground (arith, drawn, l.drawn, l.encoded) in
    let built : build_encryption_strategy is_known a.strategy_kind conf.encryption_args new
        ≡ ok strategy =
      (build_args-strategy a.encode decode is_known a.strategy_kind key conf.encryption_args
        strategy old new trips.config known size (unfold new_convergent_immutable_strategy in refl)
        (unfold build_args in encoded) registered).0 in
    (
      record restarted {
        accesses = suc restarted.accesses;
        chain_state = restarted.stored_chain_state;
      },
      ground (arith, built, l.kind, trips.followed conf.genesis_ref l.minted),
      kept ∙ started.stored,
    )
