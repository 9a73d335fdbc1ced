-- ===== src/State/View.antt =====
-- What a node stores, seen without its representation: the contents of the three tries, whether it
-- is healthy, and whether the disk holds what the tries hold.
use go_blockchain_demo.Prelude.{
  String, ◌≡◌, ◌≢◌, refl, sym, ◌∙◌, Option, none, some, ok, str_eq, str_eq_ne, ne_by_test,
  if◌then◌else◌, eq_refl, arith,
}
use go_blockchain_demo.Library.{Library, Codec}
use go_blockchain_demo.Library.Laws.{Laws}
use go_blockchain_demo.State.Defs.{
  Blockchain, Slot, blocks, transactions, accounts, trie_at, put_trie,
}

-- The key of the database under which the root of a trie stands.
abbrev pub root_name : Slot → String
root_name blocks = "ROOT_HASH"
root_name transactions = "TX_ROOT_HASH"
root_name accounts = "ACC_ROOT_HASH"

-- What json.Unmarshal makes of a value that may be missing.
abbrev pub decode : {Blob A : Type 0} → Codec Blob A → Option Blob → Option A
decode c none = none
decode c (some b) = elim (c.unmarshal b) [ ok a ↦ some a | _ ↦ none ]

pub Slot-discrete : Discrete Slot
Slot-discrete = hlevel

-- Each trie has a name of its own.
pub root_name-ne : (a b : Slot) → a ≢ b → root_name a ≢ root_name b
root_name-ne blocks blocks h = absurd (h refl)
root_name-ne blocks transactions h = ne_by_test _ _ refl
root_name-ne blocks accounts h = ne_by_test _ _ refl
root_name-ne transactions blocks h = ne_by_test _ _ refl
root_name-ne transactions transactions h = absurd (h refl)
root_name-ne transactions accounts h = ne_by_test _ _ refl
root_name-ne accounts blocks h = ne_by_test _ _ refl
root_name-ne accounts transactions h = ne_by_test _ _ refl
root_name-ne accounts accounts h = absurd (h refl)

-- The names of the heads are none of a trie.
pub root_name-ne-heads :
    (slot : Slot) → (root_name slot ≢ "CURRENT_BLOCK") × (root_name slot ≢ "LAST_BLOCK")
root_name-ne-heads blocks = (ne_by_test _ _ refl, ne_by_test _ _ refl)
root_name-ne-heads transactions = (ne_by_test _ _ refl, ne_by_test _ _ refl)
root_name-ne-heads accounts = (ne_by_test _ _ refl, ne_by_test _ _ refl)

module _ (lib : Library) (laws : Laws lib) where
  open laws use {IsFine, stored, Persisted, IsOpen, contents}

  -- A trie that is there and can be read.
  abbrev pub Opened : Option lib.Trie → Type 0
  Opened o = (t : lib.Trie) × (o ≡ some t) × IsOpen t

  abbrev pub contents_of : Option lib.Trie → String → Option lib.Blob
  contents_of none k = none
  contents_of (some t) k = contents t k

  abbrev pub view : Slot → Blockchain lib → String → Option lib.Blob
  view slot s = contents_of (trie_at lib slot s)

  pub record IsHealthy (s : Blockchain lib) : Type 0 where
    pub fine : IsFine s.world
    pub opened : (slot : Slot) → Opened (trie_at lib slot s)

  -- The root under the name of the trie is on the disk, and stands for the contents of the trie.
  abbrev pub IsDurable : Slot → Blockchain lib → Type 0
  IsDurable slot s =
      (root : lib.Hash) × (c : String → Option lib.Blob) × (stored s.world (root_name slot)
        ≡ some (lib.hash_bytes root))
      × Persisted s.world root c
      × ((k : String) → c k ≡ view slot s k)

  -- What a write of one key into one trie does to a node.
  pub record Saved (slot : Slot) (key : String) (value : lib.Blob) (s s' : Blockchain lib)
      : Type 0 where
    pub healthy : IsHealthy s'
    pub writes :
        (k : String) → view slot s' k ≡ (if str_eq key k then some value else view slot s k)
    pub other_tries : (other : Slot) → other ≢ slot → trie_at lib other s' ≡ trie_at lib other s
    pub other_names : (k : String) → k ≢ root_name slot → stored s'.world k ≡ stored s.world k
    pub durable : IsDurable slot s'
    pub others_durable : (other : Slot) → other ≢ slot → IsDurable other s → IsDurable other s'
    pub same_config : s'.config ≡ s.config
    pub same_mempool : s'.mempool ≡ s.mempool
    pub same_network : s'.p2p_network ≡ s.p2p_network

  trie_at-put_trie_self :
      (slot : Slot) (o : Option lib.Trie) (w : lib.World) (s : Blockchain lib)
      → trie_at lib slot (record (put_trie lib slot o s) { world = w }) ≡ o
  trie_at-put_trie_self blocks o w s = refl
  trie_at-put_trie_self transactions o w s = refl
  trie_at-put_trie_self accounts o w s = refl

  trie_at-put_trie_ne :
      (slot other : Slot) (o : Option lib.Trie) (w : lib.World) (s : Blockchain lib)
      → other ≢ slot
      → trie_at lib other (record (put_trie lib slot o s) { world = w }) ≡ trie_at lib other s
  trie_at-put_trie_ne blocks blocks o w s h = absurd (h refl)
  trie_at-put_trie_ne blocks transactions o w s h = refl
  trie_at-put_trie_ne blocks accounts o w s h = refl
  trie_at-put_trie_ne transactions blocks o w s h = refl
  trie_at-put_trie_ne transactions transactions o w s h = absurd (h refl)
  trie_at-put_trie_ne transactions accounts o w s h = refl
  trie_at-put_trie_ne accounts blocks o w s h = refl
  trie_at-put_trie_ne accounts transactions o w s h = refl
  trie_at-put_trie_ne accounts accounts o w s h = absurd (h refl)

  module _ (slot : Slot) (key : String) (value : lib.Blob) (s : Blockchain lib) (t u : lib.Trie)
      (root : lib.Hash) (c : String → Option lib.Blob) (w : lib.World) (healthy : IsHealthy s)
      (here : trie_at lib slot s ≡ some t)
      (writes : (k : String) → c k ≡ (if str_eq key k then some value else contents t k))
      (fine : IsFine w) (open_u : IsOpen u) (same : (k : String) → contents u k ≡ c k)
      (names : (k : String)
        → stored w k
          ≡ (if str_eq (root_name slot) k then some (lib.hash_bytes root) else stored s.world k))
      (persisted : Persisted w root c)
      (kept : (h : lib.Hash) (d : String → Option lib.Blob)
        → Persisted s.world h d
        → Persisted w h d) where
    abbrev after : Blockchain lib
    after = record (put_trie lib slot (some u) s) { world = w }

    self : trie_at lib slot after ≡ some u
    self = trie_at-put_trie_self slot (some u) w s

    other_name : (k : String) → k ≢ root_name slot → stored w k ≡ stored s.world k
    other_name k ne = names k ∙ ground (arith, str_eq_ne (root_name slot) k (λ e. ne (sym e)))

    after-Opened : (other : Slot) → Opened (trie_at lib other after)
    after-Opened other = elim (Slot-discrete other slot) [
      | yes e ↦ rw e (u, self, open_u)
      | no ne ↦ rw (trie_at-put_trie_ne slot other (some u) w s ne) (healthy.opened other)
    ]

    still-IsDurable : (other : Slot) → other ≢ slot → IsDurable other s → IsDurable other after
    still-IsDurable other ne (h, d, named, on_disk, reads) = (
      h,
      d,
      other_name (root_name other) (root_name-ne other slot ne) ∙ named,
      kept h d on_disk,
      λ k. rw (trie_at-put_trie_ne slot other (some u) w s ne) (reads k),
    )

    -- A write that is committed, named in the database and opened again.
    pub put_trie-Saved : Saved slot key value s after
    put_trie-Saved = record {
      healthy = record { fine = fine; opened = after-Opened };
      writes = λ k. rw (self, here) (same k ∙ writes k);
      other_tries = λ other ne. trie_at-put_trie_ne slot other (some u) w s ne;
      other_names = other_name;
      durable = (
        root,
        c,
        names (root_name slot) ∙ ground (arith, eq_refl (root_name slot)),
        persisted,
        λ k. rw self (sym (same k)),
      );
      others_durable = still-IsDurable;
      same_config = refl;
      same_mempool = refl;
      same_network = refl;
    }
