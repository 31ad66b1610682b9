-- ===== src/Tests/Boot.antt =====
-- The theorems on the start of a process, with configurations as lists of numbers.
use inca_go.Base.{
  ℕ, ◌+◌, ◌-◌, ◌≡◌, refl, true, none, some, [], ◌∷◌, ◌++◌, arith, map, ltb, if◌then◌else◌,
}
use inca_go.Result.{Result, ok, err, unresolved}
use inca_go.Transactions.{Bytes}
use inca_go.World.{World, forget, get_block, write_block, get_segment_by_id}
use inca_go.Segment.Store.{new_segment}
use inca_go.Chain.{write_state}
use inca_go.Chain.New.{Config, NewArgs, Stores, new_genesis, new_chain, from_config}
use inca_go.Chain.New.Load.{RoundTrips}
use inca_go.Encryption.{
  register_encryption_strategy_ctor, build_encryption_strategy,
  new_convergent_immutable_strategy_from_config,
}
use inca_go.Node.Start.{add_peers, read_genesis_state, new_node}
use inca_go.Peer.{get_peer, get_peer_with_pub_key, new_peer}
use inca_go.Startup.{missing, content, Disk, Tools, Process, Loaded, Common, End, up, down, build}
use inca_go.Startup.Cli.{cmd_init_cluster, get_node}
use inca_go.Startup.Laws.{Laws}
use inca_go.Startup.Again.{Resumed, build-again}
use inca_go.Startup.Init.{Works, cmd_init_cluster-get_node}
use inca_go.Tests.{env, world}
use inca_go.Tests.Genesis.{key, plain, args, stores, registry, world_of}
use inca_go.Tests.Network.{setup, known}

-- A new line is 10, and stands for no number.
abbrev shift : Bytes → Bytes
shift bs = map (λ b. b + 11) bs

abbrev unshift : Bytes → Bytes
unshift [] = []
unshift (b ∷ bs) = if ltb b 11 then [] else (b - 11) ∷ unshift bs

unshift-shift : (bs : Bytes) → unshift (shift bs) ≡ bs
unshift-shift [] = refl
unshift-shift (b ∷ bs) = ground (arith, unshift-shift bs)

unshift_line : (bs : Bytes) → unshift (shift bs ++ 10 ∷ []) ≡ bs
unshift_line [] = refl
unshift_line (b ∷ bs) = ground (arith, unshift_line bs)

abbrev config_of : Bytes → Result Config
config_of [] = err unresolved
config_of (r ∷ []) = err unresolved
config_of (r ∷ k ∷ bs) =
    ok (record { genesis_ref = r; encryption_strategy = k; encryption_args = bs })

abbrev key_of : Bytes → Result ℕ
key_of [] = err unresolved
key_of (k ∷ bs) = ok k

abbrev tools : Tools
tools = record {
  marshal_key = λ k. ok (k ∷ []);
  unmarshal_key = key_of;
  print_node_config = λ i c. ok c.priv_key;
  parse_node_config = λ b. ok (record { priv_key = b });
  print_chain_config =
      λ i c. ok (shift (c.genesis_ref ∷ c.encryption_strategy ∷ c.encryption_args));
  parse_chain_config = λ b. config_of (unshift b);
  write_node_file = λ b. (true, content b);
  write_chain_file = λ b. (true, content b);
}

tools-Laws : Laws tools
tools-Laws = record {
  node_saved = λ dat f h. ground arith;
  chain_saved = λ dat f h. ground arith;
  key_parsed = λ k b h. ground arith;
  node_parsed = λ i c b h. ground arith;
  chain_parsed = λ i c b h.
      ground (arith, unshift-shift (c.genesis_ref ∷ c.encryption_strategy ∷ c.encryption_args));
  new_line = λ i c b h.
      ground (arith, unshift_line (c.genesis_ref ∷ c.encryption_strategy ∷ c.encryption_args));
}

tools-Works : Works tools
tools-Works = record {
  marshals = λ k. (k ∷ [], refl);
  prints_node = λ i c. (c.priv_key, refl);
  prints_chain = λ i c. (shift (c.genesis_ref ∷ c.encryption_strategy ∷ c.encryption_args), refl);
  saves_node = λ dat. refl;
  saves_chain = λ dat. refl;
}

abbrev new_args : NewArgs
new_args = record args { chain_id = 1 }

abbrev node_stores : Stores
node_stores = record stores { follow_genesis = λ r. some (new_genesis new_args 60) }

-- Key 5 is drawn in the first process, key 6 in the second.
abbrev process : ℕ → Process
process k = record {
  shell_built = ok tt;
  db_built = ok tt;
  create_init_node_config = true;
  generate_key = ok k;
  new_args = λ key. new_args;
  build_init_state = none;
  node_setup = λ key. setup;
}

abbrev empty_disk : Disk
empty_disk = record { node_file = missing; chain_file = missing; world = world }

abbrev disk_of {ℓ} : {A : Type ℓ} → End A → Disk
disk_of (up a d) = d
disk_of (down x d) = d

abbrev after : Disk
after = disk_of (build tools env node_stores (λ k. true) registry (process 5) empty_disk)

abbrev loaded : Loaded
loaded = record {
  key = 5;
  config = record { genesis_ref = 50; encryption_strategy = 1; encryption_args = key };
  strategy = record { key = key; pre_shared_key = key };
  genesis = new_genesis new_args 60;
}

abbrev common : Common
common = record { loaded = loaded; node = (known, 20); block_validator = none }

build-again_example :
    ((d : Disk) × (build tools env node_stores (λ k. true) registry (process 6) after ≡ up common d)
      × Resumed after d)
    × (d : Disk) × (get_node tools env node_stores (λ k. true) registry (process 6) 0 none after
        ≡ up common d)
    × Resumed after d
unfolding build new_chain get_block new_segment write_block write_state get_segment_by_id new_node
    read_genesis_state add_peers get_peer get_peer_with_pub_key new_peer forget from_config
    build_encryption_strategy new_convergent_immutable_strategy_from_config
build-again_example =
    build-again tools env node_stores (λ k. true) registry (process 5) (process 6) empty_disk after
      after common (known, 20) 0 none tools-Laws refl refl refl refl refl refl refl refl

trips : RoundTrips node_stores (new_genesis new_args 60) plain plain
trips = record { followed = λ r e. refl; config = λ m w e. ground arith }

abbrev made : World
made = world_of (new_chain env node_stores new_args (forget world))

cmd_init_cluster-get_node_example :
    (d d2 : Disk) × (cmd_init_cluster tools env node_stores (process 5) 1 empty_disk ≡ up tt d)
    × (get_node tools env node_stores (λ k. true) registry (process 6) 0 none d ≡ up common d2)
    × (d2.world.chain_state ≡ made.chain_state)
unfolding new_chain get_block new_segment write_block write_state get_segment_by_id new_node
    read_genesis_state add_peers get_peer get_peer_with_pub_key new_peer
    register_encryption_strategy_ctor forget
cmd_init_cluster-get_node_example =
    cmd_init_cluster-get_node tools env node_stores (λ k. true) registry tools-Laws tools-Works
      (process 5) (process 6) empty_disk 1 5 loaded.config loaded.genesis made plain key []
      (known, 20) trips refl refl refl refl refl refl refl refl refl refl refl refl refl
