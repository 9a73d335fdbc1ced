-- ===== src/State/Laws.antt =====
-- Storage under the laws of the libraries: a key that is written into a trie is committed, and the
-- trie is opened again with that key changed and no other.
use go_blockchain_demo.Prelude.{
  String, ◌≡◌, ◌≢◌, Option, some, ok, str_eq, if◌then◌else◌, arith, effects,
}
use go_blockchain_demo.Library.{Library}
use go_blockchain_demo.Library.Laws.{Laws}
use go_blockchain_demo.State.Defs.{Blockchain, Slot, trie_at, put_trie}
use go_blockchain_demo.State.Storage.{restore_trie_from_root_hash, commit_to_database}

module _ (lib : Library) (laws : Laws lib) where
  open laws use {IsFine, stored, Persisted, IsOpen, contents}

  -- A commit writes the nodes of the trie with the key changed, and keeps what LevelDB holds.
  pub record Committed (slot : Slot) (s : Blockchain lib) (c : String → Option lib.Blob)
      (root : lib.Hash) (t : lib.Trie) (w : lib.World) (text : String) (key : String)
      (value : lib.Blob) : Type 0 where
    pub runs :
        commit_to_database lib slot text key value s
        ≡ (ok root, record (put_trie lib slot (some t) s) { world = w })
    pub fine : IsFine w
    pub same : (j : String) → stored w j ≡ stored s.world j
    pub persisted : Persisted w root c
    pub kept :
        (h : lib.Hash) (c' : String → Option lib.Blob) → Persisted s.world h c' → Persisted w h c'

  pub commit_to_database_lem :
      (slot : Slot) (s : Blockchain lib) (t : lib.Trie) (text key : String) (value : lib.Blob)
      → IsFine s.world
      → trie_at lib slot s ≡ some t
      → IsOpen t
      → contents t key ≢ some value
      → (t' : lib.Trie) × (t'' : lib.Trie) × (root : lib.Hash) × (w : lib.World) × ((j : String)
          → contents t' j ≡ (if str_eq key j then some value else contents t j))
        × Committed slot s (contents t') root t'' w text key value
  unfolding commit_to_database effects
  commit_to_database_lem slot s t text key value fine e open_t new =
      let (t', updates, open', dirty, writes) =
        laws.trie_update_lem t key value s.world fine open_t new in
      let holds = laws.trie_commit_lem t' open' dirty in
      let (d, stages, staged) = laws.triedb_update_lem _ _ _ s.world fine holds in
      let (w, commits, fine', same, persisted, kept) =
        laws.triedb_commit_lem d _ _ s.world fine staged in
      (
        t',
        (lib.trie_commit t').2,
        (lib.trie_commit t').0,
        w,
        writes,
        record {
          runs = ground (arith, e, updates, stages, commits);
          fine = fine';
          same = same;
          persisted = persisted;
          kept = kept;
        },
      )

  -- A root that is on the disk is opened at the first try.
  pub restore_lem :
      (s : Blockchain lib) (root : lib.Hash) (c : String → Option lib.Blob)
      → IsFine s.world
      → Persisted s.world root c
      → (t : lib.Trie) × (restore_trie_from_root_hash lib root s ≡ (ok t, s))
        × IsOpen t
        × ((j : String) → contents t j ≡ c j)
  unfolding restore_trie_from_root_hash effects
  restore_lem s root c fine persisted =
      let (t, opens, open_t, same) = laws.trie_new_lem root c s.world fine persisted in
      (t, ground (arith, opens), open_t, same)
