-- ===== src/Chain/Reopening.antt =====
-- The three tries that `Init` of app/internal/blockchain/chain.go opens at the roots on the disk.
use go_blockchain_demo.Prelude.{String, ◌≡◌, refl, ◌∙◌, some, true, ok, arith, effects}
use go_blockchain_demo.Library.{Library}
use go_blockchain_demo.Library.Laws.{Laws}
use go_blockchain_demo.State.{
  Blockchain, Slot, blocks, transactions, accounts, trie_at, put_trie, restore_trie_from_root_hash,
}
use go_blockchain_demo.State.Laws.{restore_lem}
use go_blockchain_demo.State.View.{IsHealthy, IsDurable, Opened, view, root_name}
use go_blockchain_demo.State.Chain.{SameDisk}
use go_blockchain_demo.Chain.Startup.{
  found, read_root, root_of, assign_trie, init_blocks, init_transactions, init_accounts,
}

module _ (lib : Library) (laws : Laws lib) where
  restores :
      (slot : Slot) (old s : Blockchain lib)
      → IsDurable lib laws slot old
      → laws.IsFine s.world
      → SameDisk lib laws old.world s.world
      → (root : lib.Hash) × (t : lib.Trie) × (read_root (root_name slot) s
          ≡ (ok (found (lib.hash_bytes root)), s))
        × (assign_trie slot
              (restore_trie_from_root_hash lib (lib.bytes_to_hash (lib.hash_bytes root)))
              s
            ≡ (ok tt, put_trie lib slot (some t) s))
        × laws.IsOpen t
        × ((k : String) → laws.contents t k ≡ view lib laws slot old k)
  unfolding read_root root_of effects
  restores slot old s (root, c, named, on_disk, reads) fine disk =
      let (t, opens, open_t, same) =
        restore_lem lib laws s root c fine (disk.kept root c on_disk) in
      (
        root,
        t,
        ground (
          arith,
          laws.db_get_lem (root_name slot) s.world fine,
          disk.same (root_name slot),
          named,
        ),
        ground (arith, laws.bytes_to_hash-hash_bytes root, opens),
        open_t,
        λ k. same k ∙ reads k,
      )

  -- The tries are opened again, and hold what they held.
  pub record Restored (old s s' : Blockchain lib) : Type 0 where
    pub healthy : IsHealthy lib laws s'
    pub same_view : (slot : Slot) (k : String) → view lib laws slot s' k ≡ view lib laws slot old k
    pub same_world : s'.world ≡ s.world

  module _ (old s : Blockchain lib) (t1 t2 t3 : lib.Trie) (fine : laws.IsFine s.world)
      (open1 : laws.IsOpen t1) (open2 : laws.IsOpen t2) (open3 : laws.IsOpen t3)
      (same1 : (k : String) → laws.contents t1 k ≡ view lib laws blocks old k)
      (same2 : (k : String) → laws.contents t2 k ≡ view lib laws transactions old k)
      (same3 : (k : String) → laws.contents t3 k ≡ view lib laws accounts old k) where
    abbrev three : Blockchain lib
    three =
        put_trie lib accounts (some t3)
          (put_trie lib transactions (some t2) (put_trie lib blocks (some t1) s))

    three-Opened : (slot : Slot) → Opened lib laws (trie_at lib slot three)
    three-Opened blocks = (t1, refl, open1)
    three-Opened transactions = (t2, refl, open2)
    three-Opened accounts = (t3, refl, open3)

    view-three : (slot : Slot) (k : String) → view lib laws slot three k ≡ view lib laws slot old k
    view-three blocks k = same1 k
    view-three transactions k = same2 k
    view-three accounts k = same3 k

    three-Restored : Restored old s three
    three-Restored = record {
      healthy = record { fine = fine; opened = three-Opened };
      same_view = view-three;
      same_world = refl;
    }

  pub restores_tries :
      (old s : Blockchain lib)
      → ((slot : Slot) → IsDurable lib laws slot old)
      → laws.IsFine s.world
      → SameDisk lib laws old.world s.world
      → (s1 s2 s3 : Blockchain lib) × (init_blocks s ≡ (ok true, s1))
        × (init_transactions s1 ≡ (ok tt, s2))
        × (init_accounts s2 ≡ (ok tt, s3))
        × Restored old s s3
  unfolding init_blocks init_transactions init_accounts effects
  restores_tries old s durable fine disk =
      let (h1, t1, reads1, opens1, open1, same1) =
        restores blocks old s (durable blocks) fine disk in
      let s1 : Blockchain lib = put_trie lib blocks (some t1) s in
      let (h2, t2, reads2, opens2, open2, same2) =
        restores transactions old s1 (durable transactions) fine disk in
      let s2 : Blockchain lib = put_trie lib transactions (some t2) s1 in
      let (h3, t3, reads3, opens3, open3, same3) =
        restores accounts old s2 (durable accounts) fine disk in
      (
        s1,
        s2,
        put_trie lib accounts (some t3) s2,
        ground (arith, reads1, opens1),
        ground (arith, reads2, opens2),
        ground (arith, reads3, opens3),
        three-Restored old s t1 t2 t3 fine open1 open2 open3 same1 same2 same3,
      )
