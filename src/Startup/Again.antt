-- ===== src/Startup/Again.antt =====
-- A process that starts on what another one has left.
use inca_go.Base.{ℕ, suc, Bool, List, ◌≡◌, refl, sym, inl, inr, false, none, some, Option, arith}
use inca_go.Wire.{Ref, Env}
use inca_go.Result.{ok, Result-cases}
use inca_go.Block.{BlockValidator}
use inca_go.World.{World, done, forget, access}
use inca_go.Encryption.{Strategy, Ctors, build_encryption_strategy}
use inca_go.Peer.{Peer}
use inca_go.Chain.New.{Genesis, Config, Stores, from_config}
use inca_go.Startup.{
  Disk, Tools, Process, Loaded, Common, up, get_node_config, get_chain_config, load, start_node,
  build,
}
use inca_go.Startup.Cli.{named_validator, build_node, get_node}
use inca_go.Startup.Laws.{Laws, End-cases}
use inca_go.Startup.Configured.{Configured, load-Configured}

-- The chain that has been loaded from the disk has the state that is in the database.
abbrev pub Resumed : Disk → Disk → Type 0
Resumed d d' =
    (d'.node_file ≡ d.node_file)
    × (d'.chain_file ≡ d.chain_file)
    × (d'.world.chain_state ≡ d.world.stored_chain_state)

module _ (t : Tools) (e : Env) (st : Stores) (is_known : ℕ → Bool) (ctors : Ctors) where
  from_config-up :
      (conf : Config) (w : World) (s : Strategy) (g : Genesis)
      → build_encryption_strategy is_known conf.encryption_strategy conf.encryption_args ctors
        ≡ ok s
      → st.follow_genesis conf.genesis_ref ≡ some g
      → e.db_fails w.accesses ≡ false
      → (w' : World) × (from_config e st is_known ctors conf (forget w) ≡ done (s, g) w')
        × (w'.chain_state ≡ w.stored_chain_state)
  unfolding from_config access forget
  from_config-up conf w s g built found works = (
    record (forget w) { accesses = suc w.accesses; chain_state = w.stored_chain_state },
    ground (arith, built, found, works),
    refl,
  )

  pub Configured-build :
      (p : Process) (d : Disk) (l : Loaded) (node : List Peer × Ref)
      → Configured t st is_known ctors d.node_file d.chain_file l
      → p.shell_built ≡ ok tt
      → p.db_built ≡ ok tt
      → e.db_fails d.world.accesses ≡ false
      → start_node e st p l ≡ ok node
      → (d' : Disk) × (build t e st is_known ctors p d
          ≡ up (record { loaded = l; node = node; block_validator = none }) d')
        × Resumed d d'
  unfolding build load get_node_config get_chain_config
  Configured-build p d l node c shell db works started =
      let (w, loaded, state) =
        from_config-up l.config d.world l.strategy l.genesis c.strategy_built c.genesis_found
          works in
      (
        record d { world = w },
        ground (
          arith, shell, db, c.node_there, c.node_read, c.key_read, c.chain_there, c.chain_read,
          loaded, started,
        ),
        (refl, refl, state),
      )

  pub Configured-get_node :
      (p : Process) (name : ℕ) (d : Disk) (l : Loaded) (node : List Peer × Ref)
      (v : Option BlockValidator)
      → Configured t st is_known ctors d.node_file d.chain_file l
      → p.shell_built ≡ ok tt
      → p.db_built ≡ ok tt
      → e.db_fails d.world.accesses ≡ false
      → named_validator name ≡ ok v
      → start_node e st p l ≡ ok node
      → (d' : Disk) × (get_node t e st is_known ctors p name none d
          ≡ up (record { loaded = l; node = node; block_validator = v }) d')
        × Resumed d d'
  unfolding get_node build_node get_node_config
  Configured-get_node p name d l node v c shell db works valid started =
      let (w, loaded, state) =
        from_config-up l.config d.world l.strategy l.genesis c.strategy_built c.genesis_found
          works in
      (
        record d { world = w },
        ground (
          arith, shell, db, c.node_there, c.node_read, c.key_read, c.chain_there, c.chain_read,
          loaded, valid, started,
        ),
        (refl, refl, state),
      )

  -- After Build has made a node, on whatever files it found, the next process on its files comes to
  -- the same key, chain, strategy and genesis, with Build or with GetNode, whatever keys it would
  -- draw; it writes no file, and the chain has the state that is in the database. The shell, the
  -- database, the named validator and NewNode succeed, and what was written is read again.
  pub build-again :
      (p p' : Process) (d d' stopped : Disk) (c : Common) (node : List Peer × Ref) (name : ℕ)
      (v : Option BlockValidator)
      → Laws t
      → build t e st is_known ctors p d ≡ up c d'
      → stopped.node_file ≡ d'.node_file
      → stopped.chain_file ≡ d'.chain_file
      → e.db_fails stopped.world.accesses ≡ false
      → p'.shell_built ≡ ok tt
      → p'.db_built ≡ ok tt
      → named_validator name ≡ ok v
      → start_node e st p' c.loaded ≡ ok node
      → ((d2 : Disk) × (build t e st is_known ctors p' stopped
            ≡ up (record { loaded = c.loaded; node = node; block_validator = none }) d2)
          × Resumed stopped d2)
        × (d2 : Disk) × (get_node t e st is_known ctors p' name none stopped
            ≡ up (record { loaded = c.loaded; node = node; block_validator = v }) d2)
        × Resumed stopped d2
  unfolding build
  build-again p p' d d' stopped c node name v laws h same_node same_chain works shell db valid
        started =
      elim (End-cases (load t e st is_known ctors p d)) [
        | inr (x, d1, bad) ↦ absurd (ground (arith, bad))
        | inl (l, d1, loaded) ↦ elim (Result-cases (start_node e st p l)) [
          | inr (x, bad) ↦ absurd (ground (arith, loaded, bad))
          | inl (first, ran) ↦
              let same : l ≡ c.loaded = ground (arith, loaded, ran) in
              let kept : d1 ≡ d' = ground (arith, loaded, ran) in
              let left : Configured t st is_known ctors stopped.node_file stopped.chain_file
                  c.loaded =
                rw (same_node, same_chain, sym kept, sym same)
                  (load-Configured t e st is_known ctors laws p d d1 l loaded) in
              let (d2, got, resumed) =
                Configured-get_node p' name stopped c.loaded node v left shell db works valid
                  started in
              (
                Configured-build p' stopped c.loaded node left shell db works started,
                d2,
                got,
                resumed,
              )
        ]
      ]
