-- ===== src/Startup/Cli.antt =====
-- cmd/inca: the command that makes a chain, and the node of the other commands.
use inca_go.Base.{ℕ, Bool, Option, none, some, [], ◌∷◌, ◌++◌, ◌==◌, if◌then◌else◌}
use inca_go.Wire.{nil_ref, Env}
use inca_go.Result.{Result, ok, err, no_file, config_exists}
use inca_go.Block.{BlockValidator}
use inca_go.Transactions.{Bytes}
use inca_go.Encryption.{Ctors}
use inca_go.Chain.New.{Config, Stores, new_chain, from_config}
use inca_go.Validators.{get_built_in_validator}
use inca_go.Startup.{
  missing, unreadable, content, Tools, Process, Loaded, Common, Boot, down, ◌>>=◌, ◌>>◌, pure, lift,
  on_chain, save_node_config, save_chain_config, get_node_config, start_node,
}

-- The validator that the flag names, if it is set.
abbrev pub named_validator : ℕ → Result (Option BlockValidator)
named_validator name = if name == 0 then ok none else get_built_in_validator name

module _ (t : Tools) (e : Env) (st : Stores) where
  -- `dat, _ := marshaler.MarshalToString(conf)`, and a new line; the tab is indent 1.
  abbrev pub chain_text : Config → Bytes
  chain_text conf = elim (t.print_chain_config 1 conf) [ ok dat ↦ dat ++ 10 ∷ [] | err _ ↦ 10 ∷ [] ]

  -- The configuration files of a new chain and of its validator.
  unfoldable pub save_configs : ℕ → Config → Boot (Unit {0})
  save_configs key conf = do
    save_chain_config t (chain_text conf)
    priv ← lift (t.marshal_key key)
    dat ← lift (t.print_node_config 1 (record { priv_key = priv }))
    save_node_config t dat

  unfoldable pub make_chain : Process → ℕ → Boot (Unit {0})
  unfolding save_configs
  make_chain p chain_id = do
    lift p.db_built
    lift p.shell_built
    key ← lift p.generate_key
    made ← on_chain (
        new_chain e st
          (record (p.new_args key) { chain_id = chain_id; genesis_state_ref = nil_ref }))
    save_configs key (made.0)

  unfoldable pub cmd_init_cluster : Process → ℕ → Boot (Unit {0})
  unfolding make_chain
  cmd_init_cluster p chain_id d = elim d.chain_file [
    | missing ↦ make_chain p chain_id d
    | unreadable ↦ down config_exists d
    | content _ ↦ down config_exists d
  ]

module _ (t : Tools) (e : Env) (st : Stores) (is_known : ℕ → Bool) (ctors : Ctors) where
  abbrev pub read_chain_config : Boot Config
  read_chain_config d = elim d.chain_file [
    | missing ↦ down no_file d
    | unreadable ↦ down no_file d
    | content dat ↦ lift (t.parse_chain_config dat) d
  ]

  -- GetNode, where no node has been built yet.
  unfoldable pub build_node : Process → ℕ → Boot Common
  unfolding get_node_config
  build_node p validator_type = do
    lift p.shell_built
    lift p.db_built
    conf ← read_chain_config
    loaded ← on_chain (from_config e st is_known ctors conf)
    validator ← lift (named_validator validator_type)
    node_conf ← get_node_config t p
    key ← lift (t.unmarshal_key node_conf.priv_key)
    let l : Loaded = record { key = key; config = conf; strategy = loaded.0; genesis = loaded.1 }
    node ← lift (start_node e st p l)
    pure (record { loaded = l; node = node; block_validator = validator })

  unfoldable pub get_node : Process → ℕ → Option Common → Boot Common
  unfolding build_node
  get_node p validator_type (some cached) = pure cached
  get_node p validator_type none = build_node p validator_type
