-- ===== src/Transactions/Round.antt =====
-- The invariant in `ProcessTransactionsByIDs` of app/internal/blockchain/tx.go, round by round.
use go_blockchain_demo.Prelude.{
  ℕ, ◌≤◌, ◌<◌, String, ◌≡◌, refl, sym, ap, subst, ◌∙◌, Option, none, some, false, List, [], ◌∷◌, ok,
  arith, effects, uint64_mod, if◌then◌else◌, Ensures, ensure, Ensures-eq, Ensures-bind,
  Ensures-wrapping, Ensures-if, Ensures-weaken, Ensures-lift, ltb, ◌>>=◌,
}
use go_blockchain_demo.Records.{slice_bytes, Account, Transaction}
use go_blockchain_demo.Ledger.{Distinct}
use go_blockchain_demo.Library.{Library}
use go_blockchain_demo.Library.Laws.{Laws}
use go_blockchain_demo.State.{Blockchain, transactions, deref}
use go_blockchain_demo.State.View.{view, contents_of}
use go_blockchain_demo.Accounts.{get_account_from_trie}
use go_blockchain_demo.Accounts.Laws.{account_at}
use go_blockchain_demo.Transactions.Defs.{drop_transaction}
use go_blockchain_demo.Transactions.Laws.{is_some}
use go_blockchain_demo.Transactions.Lookup.{get_transaction_by_id}
use go_blockchain_demo.Transactions.Process.{
  settle_transaction_by_id, apply_transaction_by_id, process_transaction_by_id,
  process_transactions_by_ids, dropping,
}
use go_blockchain_demo.Transactions.Transfer.{CanSettle}
use go_blockchain_demo.Transactions.Settle.{settle_transaction_by_id-Settled}
use go_blockchain_demo.Transactions.Invariant.{
  IsProper, Inv, Settled-Inv, fits_uint64, drop_transaction-Inv, get_account_from_trie-reads,
  is_transaction_exist-reads, dropping-Inv,
}
use go_blockchain_demo.Transactions.Fetch.{Fetched, get_transaction_by_id-Fetched}

pub none_of_is_some : {A : Type 0} (o : Option A) → is_some o ≡ false → o ≡ none
none_of_is_some none h = refl
none_of_is_some (some a) h = cc

pub covered_of_test : (a b : ℕ) → ltb a b ≡ false → b ≤ a
covered_of_test a b h = ground arith

ok-injective : {A : Type 0} (a b : A) → ok a ≡ ok b → a ≡ b
ok-injective a b e = cc

-- The bytes that a text decodes to are those that it was encoded from.
decoded_once :
    (lib : Library) (laws : Laws lib) (text a b : String)
    → lib.hex_decode text ≡ ok a
    → lib.hex_encode b ≡ text
    → a ≡ b
decoded_once lib laws text a b decodes encodes =
    ok-injective a b (sym decodes ∙ ap lib.hex_decode (sym encodes) ∙ laws.hex_decode-encode b)

module _ (lib : Library) (laws : Laws lib) (addresses : List String) (sum : ℕ)
    (base : Blockchain lib) (distinct : Distinct addresses) (bound : sum < uint64_mod) where
  abbrev I : Blockchain lib → Type 0
  I = Inv lib laws addresses sum base

  -- Reading an account keeps the invariant, and tells what the ledger holds.
  pub read_account :
      (s : Blockchain lib) (address : String)
      → I s
      → Ensures I
          (λ a s'. (s' ≡ s) × (account_at lib laws s address ≡ some a))
          (get_account_from_trie address s)
  read_account s address inv =
      Ensures-weaken (λ s' e. subst I (sym e) inv) (λ a s' h. h)
        (get_account_from_trie-reads lib laws addresses sum base s address inv.healthy)

  settle-Inv :
      (tx : Transaction) (tx_id : String) (from to : Account) (s : Blockchain lib)
      → I s
      → CanSettle lib laws tx from to s
      → IsProper lib addresses tx_id tx
      → Ensures I (λ _. I) (settle_transaction_by_id tx tx_id from to s)
  settle-Inv tx tx_id from to s inv can proper =
      let (s', runs, settled) = settle_transaction_by_id-Settled lib laws tx from to s can tx_id in
      Ensures-eq runs (
        ensure (
          Settled-Inv lib laws addresses sum base tx from to s s' distinct inv proper.from_listed
            proper.to_listed can settled))

  -- The transaction is applied to the accounts that were read, or is not covered and dropped.
  branch-Inv :
      (tx : Transaction) (tx_id : String) (from to : Account) (s : Blockchain lib)
      → I s
      → IsProper lib addresses tx_id tx
      → view lib laws transactions s (slice_bytes tx.id) ≡ none
      → account_at lib laws s tx.from ≡ some from
      → account_at lib laws s tx.to ≡ some to
      → Ensures I
          (λ _. I)
          ((if ltb from.balance tx.amount
              then drop_transaction tx_id
              else settle_transaction_by_id tx tx_id from to)
            s)
  branch-Inv tx tx_id from to s inv proper is_new reads_from reads_to =
      Ensures-if (ltb from.balance tx.amount) (drop_transaction tx_id)
        (settle_transaction_by_id tx tx_id from to)
        (λ short. drop_transaction-Inv lib laws addresses sum base tx_id s inv)
        (λ enough.
          let covered = covered_of_test from.balance tx.amount enough in
          settle-Inv tx tx_id from to s inv
            (record {
              healthy = inv.healthy;
              well_formed = inv.well_formed;
              sender = reads_from;
              receiver = reads_to;
              distinct = proper.distinct;
              positive = proper.positive;
              covered = covered;
              fits =
                  fits_uint64 lib laws addresses sum base tx from to s inv bound proper.distinct
                    proper.from_listed proper.to_listed reads_from reads_to covered;
              is_new = is_new;
            })
            proper)

  apply-Inv :
      (tx : Transaction) (tx_id : String) (s : Blockchain lib)
      → I s
      → IsProper lib addresses tx_id tx
      → view lib laws transactions s (slice_bytes tx.id) ≡ none
      → Ensures I (λ _. I) (apply_transaction_by_id tx tx_id s)
  unfolding apply_transaction_by_id
  apply-Inv tx tx_id s inv proper is_new =
      Ensures-bind {Q = λ from s1. (s1 ≡ s) × (account_at lib laws s tx.from ≡ some from)} _ _
        (dropping-Inv lib laws addresses sum base tx_id _ _ s (read_account s tx.from inv))
        λ from s1 h1.
          Ensures-bind {Q = λ to s2. (s2 ≡ s1) × (account_at lib laws s1 tx.to ≡ some to)} _ _
            (dropping-Inv lib laws addresses sum base tx_id _ _ s1
              (read_account s1 tx.to (subst I (sym h1.0) inv)))
            λ to s2 h2.
              let back : s ≡ s2 = sym (h2.0 ∙ h1.0) in
              branch-Inv tx tx_id from to s2 (subst I back inv) proper
                (subst (λ z. view lib laws transactions z (slice_bytes tx.id) ≡ none) back is_new)
                (subst (λ z. account_at lib laws z tx.from ≡ some from) back h1.1)
                (subst (λ z. account_at lib laws z tx.to ≡ some to) (sym h2.0) h2.1)

  -- The transaction that was found, if one was: a nil pointer panics.
  found-Inv :
      (tx_id bytes : String) (s s' : Blockchain lib) (found : Option Transaction)
      → lib.hex_decode tx_id ≡ ok bytes
      → view lib laws transactions s bytes ≡ none
      → Fetched lib laws addresses sum base tx_id s found s'
      → Ensures I (λ _. I) ((deref found >>= λ tx. apply_transaction_by_id tx tx_id) s')
  unfolding effects
  found-Inv tx_id bytes s s' none decodes is_new fetched = ensure fetched.inv
  found-Inv tx_id bytes s s' (some tx) decodes is_new fetched =
      let proper = fetched.proper tx refl in
      let same : bytes ≡ slice_bytes tx.id =
        decoded_once lib laws tx_id bytes (slice_bytes tx.id) decodes proper.identified in
      apply-Inv tx tx_id s' fetched.inv proper (
        ap (λ t. contents_of lib laws t (slice_bytes tx.id)) fetched.same_tx_trie
        ∙ subst (λ b. view lib laws transactions s b ≡ none) same is_new)

  -- A transaction that is not in the trie is looked up and applied.
  fresh-Inv :
      (tx_id bytes : String) (s : Blockchain lib)
      → I s
      → lib.hex_decode tx_id ≡ ok bytes
      → view lib laws transactions s bytes ≡ none
      → Ensures I
          (λ _. I)
          ((dropping tx_id "lỗi khi lấy giao dịch" (get_transaction_by_id tx_id) >>= λ found.
              deref found >>= λ tx. apply_transaction_by_id tx tx_id)
            s)
  fresh-Inv tx_id bytes s inv decodes is_new =
      Ensures-bind _ _
        (dropping-Inv lib laws addresses sum base tx_id _ _ s (
          get_transaction_by_id-Fetched lib laws addresses sum base s tx_id bytes inv decodes
            is_new))
        λ found s' fetched. found-Inv tx_id bytes s s' found decodes is_new fetched

  -- One round of the loop.
  process_transaction_by_id-Inv :
      (tx_id : String) (s : Blockchain lib)
      → I s
      → Ensures I (λ _. I) (process_transaction_by_id tx_id s)
  unfolding process_transaction_by_id
  process_transaction_by_id-Inv tx_id s inv =
      Ensures-bind {Q = λ bytes s1. (s1 ≡ s) × (lib.hex_decode tx_id ≡ ok bytes)} _ _
        (Ensures-wrapping _ _ (Ensures-lift (lib.hex_decode tx_id) s inv))
        λ bytes s1 h1.
          let inv1 : I s1 = subst I (sym h1.0) inv in
          Ensures-bind {Q = λ b s2. (s2 ≡ s1) × (b ≡ is_some (view lib laws transactions s1 bytes))}
            _ _
            (Ensures-wrapping _ _ (
              Ensures-weaken (λ s2 e. subst I (sym e) inv1) (λ b s2 h. h)
                (is_transaction_exist-reads lib laws addresses sum base s1 bytes inv1.healthy)))
            λ exists s2 h2.
              Ensures-if exists _ _ (λ there. ensure (subst I (sym h2.0) inv1))
                (λ fresh. fresh-Inv tx_id bytes s2 (subst I (sym h2.0) inv1) h1.1 (
                  subst (λ z. view lib laws transactions z bytes ≡ none) (sym h2.0)
                    (none_of_is_some _ (sym h2.1 ∙ fresh))))

  -- From a node that keeps the invariant, `ProcessTransactionsByIDs` at any IDs ends, with
  -- success, with an error or in a panic, in a node that keeps it, if the sum is a uint64: the
  -- ledger is well formed, the balances at the listed addresses add up to the same sum, the node is
  -- healthy, and against any earlier state that it is measured from, the blocks, the names of the
  -- disk but two roots, the configuration and the network are the same, and what was durable is. The invariant asks that the transactions of the pool and of the network have
  -- a positive amount and go between two different listed addresses.
  pub process_transactions_by_ids-Inv :
      (tx_ids : List String) (s : Blockchain lib)
      → I s
      → Ensures I (λ _. I) (process_transactions_by_ids tx_ids s)
  unfolding process_transactions_by_ids
  process_transactions_by_ids-Inv [] s inv = ensure inv
  process_transactions_by_ids-Inv (tx_id ∷ tx_ids) s inv =
      Ensures-bind (process_transaction_by_id tx_id) _ (process_transaction_by_id-Inv tx_id s inv)
        λ _ s' inv'. process_transactions_by_ids-Inv tx_ids s' inv'
