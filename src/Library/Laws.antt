-- ===== src/Library/Laws.antt =====
-- What the code of app/internal/blockchain relies on in the libraries, as documented by them, while
-- nothing is broken: the disk works, the tries are opened at roots that were committed, and the
-- root hash of a trie stands for its contents. `stored` is what LevelDB holds under the five names
-- that chain.go gives; trie nodes stand under other keys. `contents` is what a trie maps its keys to.
use go_blockchain_demo.Prelude.{
  String, ◌≡◌, ◌≢◌, Option, none, some, Outcome, ok, err, not_found, str_eq, if◌then◌else◌,
}
use go_blockchain_demo.Library.Defs.{Library, Codec}

-- What json.Marshal writes, json.Unmarshal reads back.
abbrev pub IsCodec : {Blob A : Type 0} → Codec Blob A → Type 0
IsCodec {Blob} {A} c = (a : A) → (v : Blob) × (c.marshal a ≡ ok v) × (c.unmarshal v ≡ ok a)

abbrev pub fetch : {A : Type 0} → Option A → Outcome A
fetch none = err not_found
fetch (some b) = ok b

module _ (lib : Library) where
  open lib use {World, Blob, Hash, Trie, Nodes, TrieDb}

  pub record Laws : Type 1 where
    -- The disk can be read and written, and the directory of the process can be read.
    pub IsFine : World → Type 0
    pub stored : World → String → Option Blob
    -- A root whose nodes are on the disk, with the contents that it stands for.
    pub Persisted : World → Hash → (String → Option Blob) → Type 0
    -- A trie that can be read, and one whose contents differ from those of its last commit.
    pub IsOpen : Trie → Type 0
    pub IsDirty : Trie → Type 0
    pub contents : Trie → String → Option Blob
    -- The nodes and the root that a commit gives, and a database that holds them in memory.
    pub Holds : Nodes → Hash → (String → Option Blob) → Type 0
    pub Staged : TrieDb → Hash → (String → Option Blob) → Type 0
    pub db_get_lem : (k : String) (w : World) → IsFine w → lib.db_get k w ≡ (fetch (stored w k), w)
    pub db_put_lem :
        (k : String) (v : Blob) (w : World)
        → IsFine w
        → (w' : World) × (lib.db_put k v w ≡ (ok tt, w'))
          × IsFine w'
          × ((j : String) → stored w' j ≡ (if str_eq k j then some v else stored w j))
          × ((h : Hash) (c : String → Option Blob) → Persisted w h c → Persisted w' h c)
    pub trie_get_lem :
        (t : Trie) (k : String) (w : World)
        → IsFine w
        → IsOpen t
        → lib.trie_get t k w ≡ (ok (contents t k), w)
    -- A write of what is there already leaves the trie clean, and of a clean trie no nodes are to
    -- be committed; so the laws speak of a write that changes the contents.
    pub trie_update_lem :
        (t : Trie) (k : String) (v : Blob) (w : World)
        → IsFine w
        → IsOpen t
        → contents t k ≢ some v
        → (t' : Trie) × (lib.trie_update t k v w ≡ (t', w))
          × IsOpen t'
          × IsDirty t'
          × ((j : String) → contents t' j ≡ (if str_eq k j then some v else contents t j))
    pub trie_commit_lem :
        (t : Trie)
        → IsOpen t
        → IsDirty t
        → Holds (lib.trie_commit t).1 (lib.trie_commit t).0 (contents t)
    pub triedb_update_lem :
        (n : Nodes) (h : Hash) (c : String → Option Blob) (w : World)
        → IsFine w
        → Holds n h c
        → (d : TrieDb) × (lib.triedb_update lib.new_triedb h n w ≡ (ok d, w)) × Staged d h c
    pub triedb_commit_lem :
        (d : TrieDb) (h : Hash) (c : String → Option Blob) (w : World)
        → IsFine w
        → Staged d h c
        → (w' : World) × (lib.triedb_commit d h w ≡ (ok tt, w'))
          × IsFine w'
          × ((j : String) → stored w' j ≡ stored w j)
          × Persisted w' h c
          × ((h' : Hash) (c' : String → Option Blob) → Persisted w h' c' → Persisted w' h' c')
    pub trie_new_lem :
        (h : Hash) (c : String → Option Blob) (w : World)
        → IsFine w
        → Persisted w h c
        → (t : Trie) × (lib.trie_new h w ≡ (ok t, w))
          × IsOpen t
          × ((j : String) → contents t j ≡ c j)
    -- Reading the clock leaves the disk as it is.
    pub now_lem :
        (w : World)
        → IsFine w
        → IsFine (lib.now w).1
          × ((j : String) → stored (lib.now w).1 j ≡ stored w j)
          × ((h : Hash) (c : String → Option Blob) → Persisted w h c → Persisted (lib.now w).1 h c)
    pub account_codec_lem : IsCodec lib.account_codec
    pub transaction_codec_lem : IsCodec lib.transaction_codec
    pub block_codec_lem : IsCodec lib.block_codec
    -- common.BytesToHash reads back the bytes of a hash.
    pub bytes_to_hash-hash_bytes : (h : Hash) → lib.bytes_to_hash (lib.hash_bytes h) ≡ h
    -- hexutil.Decode reads back what hexutil.Encode writes.
    pub hex_decode-encode : (b : String) → lib.hex_decode (lib.hex_encode b) ≡ ok b
