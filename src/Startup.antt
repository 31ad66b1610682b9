-- ===== src/Startup.antt =====
-- How a process comes to its chain and its node: the two configuration files, with
-- examples/common/common.go (Build) and, in Startup.Cli, cmd/inca/cmd_init.go and cmd/inca/node.go.
pub mod Cli
pub mod Laws
pub mod Configured
pub mod Again
pub mod Init
use inca_go.Base.{ℕ, Bool, true, false, Option, none, some, List}
use inca_go.Wire.{Ref, nil_ref, Env}
use inca_go.Result.{Error, Result, ok, err, no_file, not_stored}
use inca_go.Block.{BlockValidator}
use inca_go.World.{World, M, done, failed, forget}
use inca_go.Transactions.{Bytes}
use inca_go.Encryption.{Strategy, Ctors}
use inca_go.Chain.New.{Genesis, Config, Stores, NewArgs, new_chain, from_config}
use inca_go.Peer.{Peer}
use inca_go.Node.Start.{NodeSetup, new_node}

-- A file: it does not exist, cannot be read, or has a content.
pub data File : Type 0 where
  missing unreadable : File
  content : Bytes → File

-- What processes share: the files nodeConfigPath and chainConfigPath, and the database.
pub record Disk : Type 0 where
  pub node_file : File
  pub chain_file : File
  pub world : World

-- node.Config
pub record NodeConfig : Type 0 where
  pub priv_key : Bytes

-- The libraries: jsonpb, which prints with an indent, and the keys of libp2p. A write of a file
-- leaves a file, also where it fails, which is when the test is false.
pub record Tools : Type 0 where
  pub marshal_key : ℕ → Result Bytes
  pub unmarshal_key : Bytes → Result ℕ
  pub print_node_config : ℕ → NodeConfig → Result Bytes
  pub parse_node_config : Bytes → Result NodeConfig
  pub print_chain_config : ℕ → Config → Result Bytes
  pub parse_chain_config : Bytes → Result Config
  pub write_node_file : Bytes → Bool × File
  pub write_chain_file : Bytes → Bool × File

-- What one process is started with and meets: whether the shell and the database can be built, the
-- flag init-node-config, the key that is drawn, the arguments of a new chain for a key, what
-- buildInitState stores, and what its node reads.
pub record Process : Type 0 where
  pub shell_built : Result (Unit {0})
  pub db_built : Result (Unit {0})
  pub create_init_node_config : Bool
  pub generate_key : Result ℕ
  pub new_args : ℕ → NewArgs
  pub build_init_state : Option (Result Ref)
  pub node_setup : ℕ → NodeSetup

-- The chain of a process, with its private key.
pub record Loaded : Type 0 where
  pub key : ℕ
  pub config : Config
  pub strategy : Strategy
  pub genesis : Genesis

-- A node: what NewNode knows, and the block validator that the chain has been given.
pub record Common : Type 0 where
  pub loaded : Loaded
  pub node : List Peer × Ref
  pub block_validator : Option BlockValidator

-- How a start ends, and what is on the disk then.
pub data End {ℓ} (A : Type ℓ) : Type ℓ where
  up : A → Disk → End A
  down : Error → Disk → End A

abbrev pub Boot {ℓ} : Type ℓ → Type ℓ
Boot A = Disk → End A

infixl 5 ◌>>=◌ ◌>>◌
abbrev pub ◌>>=◌ {ℓ κ} : {A : Type ℓ} {B : Type κ} → Boot A → (A → Boot B) → Boot B
◌>>=◌ m f d = elim (m d) [ up a d' ↦ f a d' | down e d' ↦ down e d' ]

abbrev pub ◌>>◌ {ℓ} : {B : Type ℓ} → Boot (Unit {0}) → Boot B → Boot B
◌>>◌ m k d = elim (m d) [ up a d' ↦ k d' | down e d' ↦ down e d' ]

abbrev pub pure {ℓ} : {A : Type ℓ} → A → Boot A
pure a d = up a d

abbrev pub lift {ℓ} : {A : Type ℓ} → Result A → Boot A
lift (ok a) d = up a d
lift (err e) d = down e d

-- A call on the chain of a process.
abbrev pub on_chain {ℓ} : {A : Type ℓ} → M A → Boot A
on_chain m d = elim (m (forget d.world)) [
  | done a w ↦ up a (record d { world = w })
  | failed e w ↦ down e (record d { world = w })
]

-- NewNode on the chain.
abbrev pub start_node : Env → Stores → Process → Loaded → Result (List Peer × Ref)
start_node e st p l =
    new_node (p.node_setup l.key) (e.object_digest l.config.genesis_ref) e st l.config.genesis_ref

module _ (t : Tools) where
  abbrev pub save_node_config : Bytes → Boot (Unit {0})
  save_node_config dat d =
      let (saved, file) = t.write_node_file dat in
      elim saved [
        | true ↦ up tt (record d { node_file = file })
        | false ↦ down not_stored (record d { node_file = file })
      ]

  abbrev pub save_chain_config : Bytes → Boot (Unit {0})
  save_chain_config dat d =
      let (saved, file) = t.write_chain_file dat in
      elim saved [
        | true ↦ up tt (record d { chain_file = file })
        | false ↦ down not_stored (record d { chain_file = file })
      ]

  -- A new identity: the key of the node and its configuration.
  unfoldable pub mint_identity : Process → Boot NodeConfig
  mint_identity p = do
    key ← lift p.generate_key
    priv ← lift (t.marshal_key key)
    dat ← lift (t.print_node_config 2 (record { priv_key = priv }))
    save_node_config dat
    pure (record { priv_key = priv })

  unfoldable pub get_node_config : Process → Boot NodeConfig
  unfolding mint_identity
  get_node_config p d = elim d.node_file [
    | content dat ↦ lift (t.parse_node_config dat) d
    | unreadable ↦ down no_file d
    | missing ↦ elim p.create_init_node_config [ true ↦ mint_identity p d | false ↦ down no_file d ]
  ]

module _ (t : Tools) (e : Env) (st : Stores) (is_known : ℕ → Bool) (ctors : Ctors) where
  abbrev pub counter_test_1 : ℕ
  counter_test_1 = 1

  -- A new chain, for the key of the node.
  unfoldable pub mint_chain : Process → ℕ → Boot Config
  mint_chain p key = do
    init_state ← lift (elim p.build_init_state [ none ↦ ok nil_ref | some stored ↦ stored ])
    made ← on_chain (
        new_chain e st
          (record (p.new_args key) { chain_id = counter_test_1; genesis_state_ref = init_state }))
    dat ← lift (t.print_chain_config 0 (made.0))
    save_chain_config t dat
    pure (made.0)

  unfoldable pub get_chain_config : Process → ℕ → Boot Config
  unfolding mint_chain
  get_chain_config p key d = elim d.chain_file [
    | missing ↦ mint_chain p key d
    | unreadable ↦ down no_file d
    | content dat ↦ lift (t.parse_chain_config dat) d
  ]

  -- Build, up to the node.
  unfoldable pub load : Process → Boot Loaded
  unfolding get_node_config get_chain_config
  load p = do
    lift p.shell_built
    lift p.db_built
    node_conf ← get_node_config t p
    key ← lift (t.unmarshal_key node_conf.priv_key)
    conf ← get_chain_config p key
    loaded ← on_chain (from_config e st is_known ctors conf)
    pure (record { key = key; config = conf; strategy = loaded.0; genesis = loaded.1 })

  -- Build: its validator is returned, and not given to the chain.
  unfoldable pub build : Process → Boot Common
  unfolding load
  build p = do
    l ← load p
    node ← lift (start_node e st p l)
    pure (record { loaded = l; node = node; block_validator = none })
