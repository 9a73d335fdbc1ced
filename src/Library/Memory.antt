-- ===== src/Library/Memory.antt =====
-- A concrete instance of the libraries, in which the database is an association list, the hash of
-- a trie is its list of entries, and no call fails. It shows that the laws can hold together; the
-- examples of the development run the code on it.
use go_blockchain_demo.Prelude.{
  ℕ, zero, String, ◌≡◌, refl, sym, Option, none, some, true, false, ok, err, Error, library, ⊤,
  str_eq, if◌then◌else◌, Assoc, lookup, insert, lookup-insert,
}
use go_blockchain_demo.Records.{Account, Transaction, Block, Config}
use go_blockchain_demo.Library.Defs.{Library, Codec}
use go_blockchain_demo.Library.Laws.{Laws, fetch}

mutual
  pub data Blob : Type 0 where
    of_account : Account → Blob
    of_transaction : Transaction → Blob
    of_block : Block → Blob
    of_config : Config → Blob
    of_root : Entries → Blob

  pub data Entries : Type 0 where
    empty : Entries
    entry : String → Blob → Entries → Entries

abbrev pub find : Entries → String → Option Blob
find empty k = none
find (entry j b es) k = if str_eq j k then some b else find es k

abbrev pub World : Type 0
World = Assoc Blob

abbrev bad : Error
bad = library "unexpected value"

abbrev account_codec : Codec Blob Account
account_codec = record {
  marshal = λ a. ok (of_account a);
  unmarshal = λ b. elim b [ of_account a ↦ ok a | _ ↦ err bad ];
}

abbrev transaction_codec : Codec Blob Transaction
transaction_codec = record {
  marshal = λ t. ok (of_transaction t);
  unmarshal = λ b. elim b [ of_transaction t ↦ ok t | _ ↦ err bad ];
}

abbrev block_codec : Codec Blob Block
block_codec = record {
  marshal = λ b. ok (of_block b);
  unmarshal = λ b. elim b [ of_block c ↦ ok c | _ ↦ err bad ];
}

abbrev config_codec : Codec Blob Config
config_codec = record {
  marshal = λ c. ok (of_config c);
  unmarshal = λ b. elim b [ of_config c ↦ ok c | _ ↦ err bad ];
}

abbrev root_of_blob : Blob → Entries
root_of_blob (of_root es) = es
root_of_blob (of_account _) = empty
root_of_blob (of_transaction _) = empty
root_of_blob (of_block _) = empty
root_of_blob (of_config _) = empty

abbrev pub memory : Library
memory = record {
  World = World;
  Blob = Blob;
  Hash = Entries;
  Trie = Entries;
  Nodes = Entries;
  TrieDb = Entries;
  Float = ℕ;
  PrivateKey = String;
  PublicKey = String;
  open_leveldb = λ path w. (ok tt, w);
  db_get = λ k w. (fetch (lookup k w), w);
  db_put = λ k b w. (ok tt, insert k b w);
  trie_new = λ root w. (ok root, w);
  trie_get = λ t k w. (ok (find t k), w);
  trie_update = λ t k b w. (entry k b t, w);
  trie_commit = λ t. (t, t, t);
  trie_hash = λ t. t;
  new_triedb = empty;
  triedb_update = λ d root nodes w. (ok nodes, w);
  triedb_commit = λ d root w. (ok tt, w);
  hash_bytes = of_root;
  bytes_to_hash = root_of_blob;
  empty_hash = empty;
  account_codec = account_codec;
  transaction_codec = transaction_codec;
  block_codec = block_codec;
  config_codec = config_codec;
  hex_encode = λ b. b;
  hex_decode = λ t. ok t;
  keccak256 = λ b. b;
  sha256 = λ b. b;
  hex_to_ecdsa = λ t. ok t;
  sign = λ digest key. ok key;
  ecrecover = λ digest signature. ok signature;
  unmarshal_pubkey = λ b. ok b;
  from_ecdsa_pub = λ key. key;
  pubkey_to_address = λ key. key;
  float_le_zero = λ x. elim x [ zero ↦ true | _ ↦ false ];
  float_to_uint64 = λ x. x;
  getwd = λ w. (ok "", w);
  filepath_join = λ a b. b;
  read_file = λ path w. (fetch (lookup path w), w);
  now = λ w. (0, w);
}

abbrev pub memory_laws : Laws memory
memory_laws = record {
  IsFine = λ w. ⊤;
  stored = λ w k. lookup k w;
  Persisted = λ w h c. (k : String) → c k ≡ find h k;
  IsOpen = λ t. ⊤;
  IsDirty = λ t. ⊤;
  contents = find;
  Holds = λ n h c. (n ≡ h) × ((k : String) → c k ≡ find h k);
  Staged = λ d h c. (d ≡ h) × ((k : String) → c k ≡ find h k);
  db_get_lem = λ k w _. refl;
  db_put_lem = λ k v w _. (insert k v w, refl, tt, λ j. lookup-insert k j v w, λ h c p. p);
  trie_get_lem = λ t k w _ _. refl;
  trie_update_lem = λ t k v w _ _ _. (entry k v t, refl, tt, tt, λ j. refl);
  trie_commit_lem = λ t _ _. (refl, λ k. refl);
  triedb_update_lem = λ n h c w _ held. (n, refl, held);
  triedb_commit_lem = λ d h c w _ staged. (w, refl, tt, λ j. refl, staged.1, λ h' c' p. p);
  trie_new_lem = λ h c w _ p. (h, refl, tt, λ j. sym (p j));
  now_lem = λ w f. (f, λ j. refl, λ h c p. p);
  account_codec_lem = λ a. (of_account a, refl, refl);
  transaction_codec_lem = λ t. (of_transaction t, refl, refl);
  block_codec_lem = λ b. (of_block b, refl, refl);
  bytes_to_hash-hash_bytes = λ h. refl;
  hex_decode-encode = λ b. refl;
}
