-- ===== src/Chain/Restart.antt =====
-- `Init` on the database of a node that ran before (app/internal/blockchain/chain.go).
use go_blockchain_demo.Prelude.{
  String, ◌≡◌, refl, sym, ap, subst, ◌∙◌, [], ◌∷◌, inl, inr, some, ok, arith, effects,
}
use go_blockchain_demo.Records.{Account, Block, Config}
use go_blockchain_demo.Library.{Library}
use go_blockchain_demo.Library.Laws.{Laws}
use go_blockchain_demo.Mempool
use go_blockchain_demo.Ledger.{Has}
use go_blockchain_demo.State.{Blockchain, Slot, blocks, accounts}
use go_blockchain_demo.State.View.{IsHealthy, IsDurable, view, decode}
use go_blockchain_demo.State.Chain.{SameDisk}
use go_blockchain_demo.Accounts.{
  pub_key_1, pub_key_2, pub_key_3, new_account_from_public_key, ensure_account,
  initialize_test_accounts,
}
use go_blockchain_demo.Accounts.Laws.{account_at, get_account_from_trie-found}
use go_blockchain_demo.Chain.Heads.{Heads, HasHeads, reads_current, reads_last}
use go_blockchain_demo.Chain.Lookup.{get_block_from_trie-found}
use go_blockchain_demo.Chain.Saved.{block_in}
use go_blockchain_demo.Chain.Startup.{print_blocks, init_config, init}
use go_blockchain_demo.Chain.Reopening.{Restored, restores_tries}

module _ (lib : Library) (laws : Laws lib) where
  -- A process that starts as `s` on the disk of `old`: the directory, the database and the
  -- configuration can be read, and the accounts of the three public keys are known.
  pub record IsReboot (old s : Blockchain lib) (config : Config) : Type 0 where
    pub dir : String
    pub file : lib.Blob
    pub in_dir : lib.World
    pub booted : lib.World
    pub has_dir : lib.getwd s.world ≡ (ok dir, in_dir)
    pub opens : lib.open_leveldb (lib.filepath_join dir "leveldb_data") in_dir ≡ (ok tt, booted)
    pub fine : laws.IsFine booted
    pub disk : SameDisk lib laws old.world booted
    pub reads_file : lib.read_file "config.json" booted ≡ (ok file, booted)
    pub decodes : lib.config_codec.unmarshal file ≡ ok config
    pub known :
        (key : String)
        → Has key (pub_key_1 ∷ pub_key_2 ∷ pub_key_3 ∷ [])
        → (made : Account) × (kept : Account) × (new_account_from_public_key lib key 1000 ≡ ok made)
          × (account_at lib laws old made.address ≡ some kept)

  ensure_account-known :
      (create_text save_text key : String) (made kept : Account) (s : Blockchain lib)
      → IsHealthy lib laws s
      → new_account_from_public_key lib key 1000 ≡ ok made
      → account_at lib laws s made.address ≡ some kept
      → ensure_account create_text save_text key s ≡ (ok tt, s)
  unfolding ensure_account effects
  ensure_account-known create_text save_text key made kept s healthy makes there =
      ground (arith, makes, get_account_from_trie-found lib laws s made.address kept healthy there)

  module _ (old s : Blockchain lib) (config : Config) (heads : Heads) (genesis : Block)
      (durable : (slot : Slot) → IsDurable lib laws slot old)
      (has : HasHeads lib laws heads old.world)
      (has_genesis : block_in lib laws old "block_0" ≡ some genesis)
      (reboot : IsReboot old s config) where
    module _ (s3 : Blockchain lib)
        (restored : Restored lib laws old (record s { world = reboot.booted }) s3) where
      still_has : HasHeads lib laws heads s3.world
      still_has = record {
        has_current =
            ap (λ w. decode lib.block_codec (laws.stored w "CURRENT_BLOCK")) restored.same_world
            ∙ ap (decode lib.block_codec) (reboot.disk.same "CURRENT_BLOCK")
            ∙ has.has_current;
        has_last =
            ap (λ w. decode lib.block_codec (laws.stored w "LAST_BLOCK")) restored.same_world
            ∙ ap (decode lib.block_codec) (reboot.disk.same "LAST_BLOCK")
            ∙ has.has_last;
      }

      prints : print_blocks s3 ≡ (ok tt, s3)
      unfolding print_blocks effects
      prints = ground (
        arith,
        get_block_from_trie-found lib laws "block_0" genesis s3 restored.healthy
            (ap (decode lib.block_codec) (restored.same_view blocks "block_0") ∙ has_genesis),
        reads_last lib laws heads.last heads s3 restored.healthy.fine still_has,
        reads_current lib laws heads.current heads s3 restored.healthy.fine still_has,
      )

      knows :
          (create_text save_text key : String) (s' : Blockchain lib)
          → Has key (pub_key_1 ∷ pub_key_2 ∷ pub_key_3 ∷ [])
          → IsHealthy lib laws s'
          → ((k : String) → view lib laws accounts s' k ≡ view lib laws accounts old k)
          → ensure_account create_text save_text key s' ≡ (ok tt, s')
      knows create_text save_text key s' listed healthy same =
          let (made, kept, makes, there) = reboot.known key listed in
          ensure_account-known create_text save_text key made kept s' healthy makes
            (ap (decode lib.account_codec) (same made.address) ∙ there)

      abbrev configured : Blockchain lib
      configured = record s3 { config = config }

      configured-IsHealthy : IsHealthy lib laws configured
      configured-IsHealthy = record {
        fine = restored.healthy.fine;
        opened = restored.healthy.opened;
      }

      configures : init_config s3 ≡ (ok tt, configured)
      unfolding init_config effects
      configures =
          let reads : lib.read_file "config.json" s3.world ≡ (ok reboot.file, s3.world) =
            subst (λ w. lib.read_file "config.json" w ≡ (ok reboot.file, w))
              (sym restored.same_world) reboot.reads_file in
          ground (arith, reads, reboot.decodes)

      has_accounts : initialize_test_accounts configured ≡ (ok tt, configured)
      unfolding initialize_test_accounts effects
      has_accounts =
          let same = restored.same_view accounts in
          ground (
            arith,
            knows "lỗi khởi tạo account 1" "lỗi lưu account 1" pub_key_1 configured (inl refl)
                configured-IsHealthy same,
            knows "lỗi khởi tạo account 2" "lỗi lưu account 2" pub_key_2 configured (inr (inl refl))
                configured-IsHealthy same,
            knows "lỗi khởi tạo account 3" "lỗi lưu account 3" pub_key_3 configured
                (inr (inr (inl refl))) configured-IsHealthy same,
          )

    -- If all that the tries of a node hold is on the disk, its heads and block_0 can be read, and a
    -- process starts on that disk in which the directory, the database and the configuration can be
    -- read, and the accounts of the three public keys are known: `Init` ends well in a healthy node
    -- whose tries hold what those of the old node held, with the heads of the old node, the
    -- configuration of the file, and an empty pool.
    pub init-restores :
        (s' : Blockchain lib) × (init s ≡ (ok tt, s'))
        × IsHealthy lib laws s'
        × ((slot : Slot) (k : String) → view lib laws slot s' k ≡ view lib laws slot old k)
        × HasHeads lib laws heads s'.world
        × (s'.config ≡ config)
        × (s'.mempool ≡ some Mempool.new_mempool)
    unfolding init effects
    init-restores =
        let (s1, s2, s3, first, second, third, restored) =
          restores_tries lib laws old (record s { world = reboot.booted }) durable reboot.fine
            reboot.disk in
        (
          record s3 { config = config; mempool = some Mempool.new_mempool },
          ground (
            arith,
            reboot.has_dir,
            reboot.opens,
            first,
            second,
            third,
            prints s3 restored,
            configures s3 restored,
            has_accounts s3 restored,
          ),
          record { fine = restored.healthy.fine; opened = restored.healthy.opened },
          restored.same_view,
          still_has s3 restored,
          refl,
          refl,
        )
