-- ===== src/Peer/Handling.antt =====
-- The invariant of a node under the messages of a peer, case by case
-- (app/internal/p2pnetwork/p2pnetwork.go).
use go_blockchain_demo.Prelude.{
  String, ◌≡◌, refl, sym, subst, Outcome, ok, err, panic, ⊤, arith, effects, Action, attempt, pure,
  panics, Ensures, ensure, Ensures-bind, Ensures-weaken, Ensures-attempt, Kept, Reads,
}
use go_blockchain_demo.Library.{Library}
use go_blockchain_demo.Library.Laws.{Laws}
use go_blockchain_demo.Mempool
use go_blockchain_demo.State.{Blockchain, Mempool, blocks, transactions, accounts}
use go_blockchain_demo.State.View.{IsHealthy}
use go_blockchain_demo.State.Chain.{SameDisk}
use go_blockchain_demo.Accounts.{get_account_from_trie}
use go_blockchain_demo.Transactions.{
  with_mempool, get_transaction_by_id_from_node, get_transaction_from_trie, find_locally,
}
use go_blockchain_demo.Chain.{get_block_from_trie}
use go_blockchain_demo.Peer.Messages.{Message, Sender, logged}

abbrev on_result :
    {lib : Library} {A : Type 0}
    → (A → Action (Blockchain lib) ⊤)
    → Outcome A
    → Action (Blockchain lib) ⊤
on_result k (ok a) = k a
on_result k (err _) = pure tt
on_result k panic = panics

on_result-Ensures :
    {lib : Library} {A : Type 0} {P : Blockchain lib → Type 0} {Q : A → Blockchain lib → Type 0}
    (k : A → Action (Blockchain lib) ⊤) (r : Outcome A) (s : Blockchain lib)
    → ((a : A) (s' : Blockchain lib) → Q a s' → Ensures P (λ _. P) (k a s'))
    → Kept P Q r s
    → Ensures P (λ _. P) (on_result k r s)
on_result-Ensures k (ok a) s then_ kept = then_ a s kept
on_result-Ensures k (err e) s then_ kept = ensure kept
on_result-Ensures k panic s then_ kept = ensure kept

-- A logged call ends well, and what follows starts from where the call ended.
pub Ensures-logged :
    {lib : Library} {A : Type 0} {P : Blockchain lib → Type 0} {Q : A → Blockchain lib → Type 0}
    (m : Action (Blockchain lib) A) (k : A → Action (Blockchain lib) ⊤) {s : Blockchain lib}
    → Ensures P Q (m s)
    → ((a : A) (s' : Blockchain lib) → Q a s' → Ensures P (λ _. P) (k a s'))
    → Ensures P (λ _. P) (logged m k s)
Ensures-logged {P} {Q} m k h then_ =
    Ensures-bind {Q = Kept P Q} (attempt m) (on_result k) (Ensures-attempt m h)
      λ r s' kept. on_result-Ensures k r s' then_ kept

pub Ensures-logged_reads :
    {lib : Library} {A : Type 0} {P : Blockchain lib → Type 0} (m : Action (Blockchain lib) A)
    (k : A → Action (Blockchain lib) ⊤) {s : Blockchain lib}
    → P s
    → Reads m s
    → ((a : A) → Ensures P (λ _. P) (k a s))
    → Ensures P (λ _. P) (logged m k s)
Ensures-logged_reads {P} m k {s} h reads then_ =
    Ensures-logged {Q = λ _ s'. s' ≡ s} m k
      (Ensures-weaken (λ s' e. subst P (sym e) h) (λ a s' e. e) reads)
      λ a s' e. subst (λ z. Ensures P (λ _. P) (k a z)) (sym e) (then_ a)

module _ (lib : Library) (laws : Laws lib) where
  -- Sending a message leaves the disk as it is.
  abbrev pub IsQuiet : Sender lib → Type 0
  IsQuiet sender =
      (msg : Message) (w : lib.World)
      → laws.IsFine w
      → laws.IsFine (sender msg w).1 × SameDisk lib laws w (sender msg w).1

  pub get_account_from_trie-Reads :
      (address : String) (s : Blockchain lib)
      → IsHealthy lib laws s
      → Reads (get_account_from_trie address) s
  unfolding get_account_from_trie effects
  get_account_from_trie-Reads address s healthy =
      let (t, here, open_t) = healthy.opened accounts in
      let reads = laws.trie_get_lem t address s.world healthy.fine open_t in
      ensure (ground (arith, here, reads))

  pub get_block_from_trie-Reads :
      (key : String) (s : Blockchain lib) → IsHealthy lib laws s → Reads (get_block_from_trie key) s
  unfolding get_block_from_trie effects
  get_block_from_trie-Reads key s healthy =
      let (t, here, open_t) = healthy.opened blocks in
      let reads = laws.trie_get_lem t key s.world healthy.fine open_t in
      ensure (ground (arith, here, reads))

  pub with_mempool-Reads :
      {A : Type 0} (f : Mempool → Outcome A) (s : Blockchain lib) → Reads (with_mempool f) s
  unfolding effects
  with_mempool-Reads f s = ensure (ground arith)

  -- A lookup for a peer reads the pool and the trie, whatever the text decodes to.
  looked_up-Reads :
      (tx_id : String) (decoded : Outcome String) (s : Blockchain lib)
      → IsHealthy lib laws s
      → lib.hex_decode tx_id ≡ decoded
      → Reads (get_transaction_by_id_from_node tx_id) s
  unfolding get_transaction_by_id_from_node find_locally get_transaction_from_trie
      Mempool.get_transaction effects
  looked_up-Reads tx_id (ok bytes) s healthy e =
      let (t, here, open_t) = healthy.opened transactions in
      let reads = laws.trie_get_lem t bytes s.world healthy.fine open_t in
      ensure (ground (arith, e, here, reads))
  looked_up-Reads tx_id (err x) s healthy e = ensure (ground (arith, e))
  looked_up-Reads tx_id panic s healthy e = ensure (ground (arith, e))

  pub get_transaction_by_id_from_node-Reads :
      (tx_id : String) (s : Blockchain lib)
      → IsHealthy lib laws s
      → Reads (get_transaction_by_id_from_node tx_id) s
  get_transaction_by_id_from_node-Reads tx_id s healthy =
      looked_up-Reads tx_id (lib.hex_decode tx_id) s healthy refl
