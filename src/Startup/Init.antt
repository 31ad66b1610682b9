-- ===== src/Startup/Init.antt =====
-- The first start of a node on the chain that the command init has made.
use inca_go.Base.{ℕ, ◌≡◌, refl, ◌∙◌, Bool, true, false, none, List, arith, length, ◌++◌, ◌∷◌, []}
use inca_go.Wire.{Ref, nil_ref, Env}
use inca_go.Result.{Result, ok}
use inca_go.World.{World, done, forget}
use inca_go.Transactions.{Bytes}
use inca_go.Encryption.{
  Ctors, register_encryption_strategy_ctor, new_convergent_immutable_strategy_from_config,
}
use inca_go.Peer.{Peer}
use inca_go.Chain.New.{Genesis, Config, Stores, new_chain}
use inca_go.Chain.New.Load.{RoundTrips, from_config-new_chain}
use inca_go.Chain.New.Start.{new_chain-Started}
use inca_go.Startup.{missing, content, Disk, NodeConfig, Tools, Process, Loaded, up, start_node}
use inca_go.Startup.Cli.{save_configs, make_chain, cmd_init_cluster, get_node}
use inca_go.Startup.Laws.{Laws}
use inca_go.Startup.Configured.{Configured, from_config_lem}
use inca_go.Startup.Again.{Configured-get_node}

-- Nothing that is printed, marshaled or written fails.
pub record Works (t : Tools) : Type 0 where
  pub marshals : (key : ℕ) → (b : Bytes) × (t.marshal_key key ≡ ok b)
  pub prints_node :
      (indent : ℕ) (c : NodeConfig) → (b : Bytes) × (t.print_node_config indent c ≡ ok b)
  pub prints_chain :
      (indent : ℕ) (c : Config) → (b : Bytes) × (t.print_chain_config indent c ≡ ok b)
  pub saves_node : (dat : Bytes) → (t.write_node_file dat).0 ≡ true
  pub saves_chain : (dat : Bytes) → (t.write_chain_file dat).0 ≡ true

module _ (t : Tools) (e : Env) (st : Stores) (is_known : ℕ → Bool) (ctors : Ctors) (laws : Laws t)
    (works : Works t) where
  -- What both files have then.
  save_configs_lem :
      (key : ℕ) (conf : Config) (d : Disk)
      → (node_conf : NodeConfig) × (node_text : Bytes) × (chain_text : Bytes) × (save_configs t e st
            key conf d
          ≡ up tt (record d { node_file = content node_text; chain_file = content chain_text }))
        × (t.parse_node_config node_text ≡ ok node_conf)
        × (t.unmarshal_key node_conf.priv_key ≡ ok key)
        × (t.parse_chain_config chain_text ≡ ok conf)
  unfolding save_configs
  save_configs_lem key conf d =
      let (priv, marshaled) = works.marshals key in
      let node_conf : NodeConfig = record { priv_key = priv } in
      let (node_text, printed) = works.prints_node 1 node_conf in
      let (text, chain_printed) = works.prints_chain 1 conf in
      let chain_text = text ++ 10 ∷ [] in
      let node_saved = works.saves_node node_text in
      let chain_saved = works.saves_chain chain_text in
      let node_there =
        laws.node_saved node_text (t.write_node_file node_text).1 (ground (arith, node_saved)) in
      let chain_there =
        laws.chain_saved chain_text (t.write_chain_file chain_text).1
          (ground (arith, chain_saved)) in
      (
        node_conf,
        node_text,
        chain_text,
        ground (
          arith, marshaled, printed, chain_printed, node_saved, chain_saved, node_there,
          chain_there,
        ),
        laws.node_parsed 1 node_conf node_text printed,
        laws.key_parsed key priv marshaled,
        laws.new_line 1 conf text chain_printed,
      )

  -- Where no chain is configured, init makes one with a key that it draws, and a node of the next
  -- process has that key, that chain, the strategy with the chain's key, and the chain's first
  -- state. The shell, the database, NewChain and NewNode succeed; nothing that is printed, marshaled
  -- or written fails; the kind of the strategy is registered and its key has 32 bytes.
  pub cmd_init_cluster-get_node :
      (p p' : Process) (d : Disk) (chain_id key : ℕ) (conf : Config) (genesis : Genesis) (w : World)
      (decode : Bytes → Result Bytes) (secret : Bytes) (old : Ctors) (node : List Peer × Ref)
      → RoundTrips st genesis (p.new_args key).encode decode
      → is_known (p.new_args key).strategy_kind ≡ true
      → register_encryption_strategy_ctor
          (p.new_args key).strategy_kind
          (new_convergent_immutable_strategy_from_config decode)
          old
        ≡ ok ctors
      → (p.new_args key).random ≡ ok secret
      → length secret ≡ 32
      → d.chain_file ≡ missing
      → p.shell_built ≡ ok tt
      → p.db_built ≡ ok tt
      → p.generate_key ≡ ok key
      → new_chain e st
          (record (p.new_args key) { chain_id = chain_id; genesis_state_ref = nil_ref })
          (forget d.world)
        ≡ done (conf, genesis) w
      → p'.shell_built ≡ ok tt
      → p'.db_built ≡ ok tt
      → e.db_fails w.accesses ≡ false
      → start_node e st p' (record {
        key = key;
        config = conf;
        strategy = record { key = secret; pre_shared_key = secret };
        genesis = genesis;
      })
        ≡ ok node
      → (d' d2 : Disk) × (cmd_init_cluster t e st p chain_id d ≡ up tt d')
        × (get_node t e st is_known ctors p' 0 none d'
            ≡ up
                (record {
                  loaded = record {
                    key = key;
                    config = conf;
                    strategy = record { key = secret; pre_shared_key = secret };
                    genesis = genesis;
                  };
                  node = node;
                  block_validator = none;
                })
                d2)
        × (d2.world.chain_state ≡ w.chain_state)
  unfolding cmd_init_cluster make_chain forget
  cmd_init_cluster-get_node p p' d chain_id key conf genesis w decode secret old node trips known
        registered drawn size gone shell db own made shell' db' up_again started =
      let args = record (p.new_args key) { chain_id = chain_id; genesis_state_ref = nil_ref } in
      let l : Loaded = record {
        key = key;
        config = conf;
        strategy = record { key = secret; pre_shared_key = secret };
        genesis = genesis;
      } in
      let (w2, loaded, same) =
        from_config-new_chain e st args (forget d.world) w (forget w) conf genesis is_known decode
          secret old ctors trips known registered drawn size refl made refl up_again in
      let (strategy, found) =
        from_config_lem t e st is_known ctors laws conf (forget w) w2 (l.strategy, genesis)
          loaded in
      let (node_conf, node_text, chain_text, saved, node_read, key_read, chain_read) =
        save_configs_lem key conf (record d { world = w }) in
      let d' : Disk = record {
        node_file = content node_text;
        chain_file = content chain_text;
        world = w;
      } in
      let there : Configured t st is_known ctors d'.node_file d'.chain_file l = record {
        node_text = node_text;
        chain_text = chain_text;
        node_conf = node_conf;
        node_there = refl;
        node_read = node_read;
        key_read = key_read;
        chain_there = refl;
        chain_read = chain_read;
        strategy_built = strategy;
        genesis_found = found;
      } in
      let (d2, ran, resumed) =
        Configured-get_node t e st is_known ctors p' 0 d' l node none there shell' db' up_again refl
          started in
      let launched = (new_chain-Started e st args (forget d.world) w conf genesis refl made).0 in
      (d', d2, ground (arith, gone, shell, db, own, made, saved), ran, resumed.2 ∙ launched.stored)
