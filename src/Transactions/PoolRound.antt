-- ===== src/Transactions/PoolRound.antt =====
-- The invariant in `ProcessMempoolTransactions` of app/internal/blockchain/tx.go, round by round.
use mathlib.Core.List.{◌++◌}
use go_blockchain_demo.Prelude.{
  ℕ, ◌<◌, String, ◌≡◌, refl, sym, subst, ◌∙◌, none, some, List, [], ◌∷◌, err, errorf, arith,
  effects, uint64_mod, if◌then◌else◌, ltb, ◌>>◌, pure, inl, inr, Option-cases, In, In-values,
  Ensures, ensure, Ensures-eq, Ensures-bind, Ensures-wrapping, Ensures-if, Ensures-weaken, panic,
}
use go_blockchain_demo.Records.{Slice, slice_bytes, Account, Transaction}
use go_blockchain_demo.Ledger.{Distinct}
use go_blockchain_demo.Library.{Library}
use go_blockchain_demo.Library.Laws.{Laws}
use go_blockchain_demo.Mempool
use go_blockchain_demo.State.{Blockchain, Mempool, transactions}
use go_blockchain_demo.State.View.{IsHealthy, view}
use go_blockchain_demo.Accounts.Laws.{account_at}
use go_blockchain_demo.Transactions.Defs.{
  drop_transaction, is_transaction_exist, get_mempool_transactions,
}
use go_blockchain_demo.Transactions.Laws.{is_some}
use go_blockchain_demo.Transactions.Process.{
  settle_mempool_transaction, apply_mempool_transaction, process_mempool_transaction,
  process_mempool_loop, process_mempool_transactions,
}
use go_blockchain_demo.Transactions.Transfer.{CanSettle}
use go_blockchain_demo.Transactions.Settle.{settle-Saves}
use go_blockchain_demo.Transactions.Invariant.{
  IsProper, Inv, Settled-Inv, fits_uint64, drop_transaction-Inv, is_transaction_exist-reads,
  dropping-Inv,
}
use go_blockchain_demo.Transactions.Round.{read_account, covered_of_test, none_of_is_some}

module _ (lib : Library) (laws : Laws lib) (addresses : List String) (sum : ℕ)
    (base : Blockchain lib) (distinct : Distinct addresses) (bound : sum < uint64_mod) where
  abbrev I : Blockchain lib → Type 0
  I = Inv lib laws addresses sum base

  abbrev hex_id : Transaction → String
  hex_id tx = lib.hex_encode (slice_bytes tx.id)

  drop_and :
      {A : Type 0} (tx_id : String) (a : A) (s : Blockchain lib)
      → I s
      → Ensures I (λ _. I) ((drop_transaction tx_id >> pure a) s)
  drop_and tx_id a s inv =
      Ensures-bind (drop_transaction tx_id) _
        (drop_transaction-Inv lib laws addresses sum base tx_id s inv) λ _ s' inv'. ensure inv'

  settle-Inv :
      (tx : Transaction) (from to : Account) (s : Blockchain lib)
      → I s
      → CanSettle lib laws tx from to s
      → IsProper lib addresses (hex_id tx) tx
      → Ensures I (λ _. I) (settle_mempool_transaction tx (hex_id tx) from to s)
  unfolding settle_mempool_transaction effects
  settle-Inv tx from to s inv can proper =
      let saves = settle-Saves lib laws tx from to s can in
      Ensures-eq {q = (drop_transaction (hex_id tx) >> pure (hex_id tx ∷ [])) saves.third}
        (ground (arith, saves.saves_sender, saves.saves_receiver, saves.saves_transaction))
        (drop_and (hex_id tx) (hex_id tx ∷ []) saves.third (
          Settled-Inv lib laws addresses sum base tx from to s saves.third distinct inv
            proper.from_listed proper.to_listed can saves.settled))

  branch-Inv :
      (tx : Transaction) (from to : Account) (s : Blockchain lib)
      → I s
      → IsProper lib addresses (hex_id tx) tx
      → view lib laws transactions s (slice_bytes tx.id) ≡ none
      → account_at lib laws s tx.from ≡ some from
      → account_at lib laws s tx.to ≡ some to
      → Ensures I
          (λ _. I)
          ((if ltb from.balance tx.amount
              then (drop_transaction (hex_id tx) >> pure [])
              else settle_mempool_transaction tx (hex_id tx) from to)
            s)
  branch-Inv tx from to s inv proper is_new reads_from reads_to =
      Ensures-if (ltb from.balance tx.amount) (drop_transaction (hex_id tx) >> pure [])
        (settle_mempool_transaction tx (hex_id tx) from to) (λ short. drop_and (hex_id tx) [] s inv)
        (λ enough.
          let covered = covered_of_test from.balance tx.amount enough in
          settle-Inv tx from to s inv
            (record {
              healthy = inv.healthy;
              well_formed = inv.well_formed;
              sender = reads_from;
              receiver = reads_to;
              distinct = proper.distinct;
              positive = proper.positive;
              covered = covered;
              fits =
                  fits_uint64 lib laws addresses sum base tx from to s inv bound proper.distinct
                    proper.from_listed proper.to_listed reads_from reads_to covered;
              is_new = is_new;
            })
            proper)

  apply-Inv :
      (tx : Transaction) (s : Blockchain lib)
      → I s
      → IsProper lib addresses (hex_id tx) tx
      → view lib laws transactions s (slice_bytes tx.id) ≡ none
      → Ensures I (λ _. I) (apply_mempool_transaction tx (hex_id tx) s)
  unfolding apply_mempool_transaction
  apply-Inv tx s inv proper is_new =
      Ensures-bind {Q = λ from s1. (s1 ≡ s) × (account_at lib laws s tx.from ≡ some from)} _ _
        (dropping-Inv lib laws addresses sum base (hex_id tx) _ _ s
          (read_account lib laws addresses sum base distinct bound s tx.from inv))
        λ from s1 h1.
          Ensures-bind {Q = λ to s2. (s2 ≡ s1) × (account_at lib laws s1 tx.to ≡ some to)} _ _
            (dropping-Inv lib laws addresses sum base (hex_id tx) _ _ s1 (
              read_account lib laws addresses sum base distinct bound s1 tx.to
                (subst I (sym h1.0) inv)))
            λ to s2 h2.
              let back : s ≡ s2 = sym (h2.0 ∙ h1.0) in
              branch-Inv tx from to s2 (subst I back inv) proper
                (subst (λ z. view lib laws transactions z (slice_bytes tx.id) ≡ none) back is_new)
                (subst (λ z. account_at lib laws z tx.from ≡ some from) back h1.1)
                (subst (λ z. account_at lib laws z tx.to ≡ some to) (sym h2.0) h2.1)

  exists-reads :
      (id : Slice) (s : Blockchain lib)
      → IsHealthy lib laws s
      → Ensures
          (λ s'. s' ≡ s)
          (λ b s'. (s' ≡ s) × (b ≡ is_some (view lib laws transactions s (slice_bytes id))))
          (is_transaction_exist id s)
  unfolding is_transaction_exist effects
  exists-reads none s healthy =
      let (t, here, open_t) = healthy.opened transactions in
      Ensures-eq {q = (err (errorf "transaction ID is nil" ""), s)} (ground (arith, here))
        (ensure refl)
  exists-reads (some id) s healthy =
      is_transaction_exist-reads lib laws addresses sum base s id healthy

  process_mempool_transaction-Inv :
      (tx : Transaction) (s : Blockchain lib)
      → I s
      → IsProper lib addresses (hex_id tx) tx
      → Ensures I (λ _. I) (process_mempool_transaction tx s)
  unfolding process_mempool_transaction
  process_mempool_transaction-Inv tx s inv proper =
      Ensures-bind
        {Q = λ b s1. (s1 ≡ s) × (b ≡ is_some (view lib laws transactions s (slice_bytes tx.id)))} _
        _
        (Ensures-wrapping _ _ (
          Ensures-weaken (λ s1 e. subst I (sym e) inv) (λ b s1 h. h)
            (exists-reads tx.id s inv.healthy)))
        λ exists s1 h.
          let inv1 : I s1 = subst I (sym h.0) inv in
          Ensures-if exists _ _ (λ there. ensure inv1)
            (λ fresh. apply-Inv tx s1 inv1 proper (
              subst (λ z. view lib laws transactions z (slice_bytes tx.id) ≡ none) (sym h.0)
                (none_of_is_some _ (sym h.1 ∙ fresh))))

  process_mempool_loop-Inv :
      (txs : List Transaction) (successful_txs : List String) (s : Blockchain lib)
      → I s
      → ((tx : Transaction) → In tx txs → IsProper lib addresses (hex_id tx) tx)
      → Ensures I (λ _. I) (process_mempool_loop txs successful_txs s)
  unfolding process_mempool_loop
  process_mempool_loop-Inv [] successful_txs s inv proper = ensure inv
  process_mempool_loop-Inv (tx ∷ txs) successful_txs s inv proper =
      Ensures-bind (process_mempool_transaction tx) _
        (process_mempool_transaction-Inv tx s inv (proper tx (inl refl)))
        λ appended s' inv'.
          process_mempool_loop-Inv txs (successful_txs ++ appended) s' inv'
            (λ tx' h. proper tx' (inr h))

  -- The transactions of the pool are proper under the text of their own ID.
  pool_proper :
      (s : Blockchain lib) (mp : Mempool)
      → I s
      → s.mempool ≡ some mp
      → (tx : Transaction) → In tx (Mempool.values mp.transactions)
      → IsProper lib addresses (hex_id tx) tx
  pool_proper s mp inv there tx listed =
      let (k, entry) = In-values tx mp.transactions listed in
      let proper = inv.pool mp there k tx entry in
      subst (λ z. IsProper lib addresses z tx) (sym proper.identified) proper

  -- From a node that keeps the invariant, in whichever order Go ranges over the pool,
  -- `ProcessMempoolTransactions` ends, with success, with an error or in a panic, in a node that
  -- keeps it, if the sum is a uint64: the ledger is well formed, the balances at the listed addresses
  -- add up to the same sum, the node is healthy, and against any earlier state that it is measured
  -- from, the blocks, the names of the disk but two roots, the configuration and the network are the
  -- same, and what was durable is. The invariant asks that the transactions of the
  -- pool and of the network have a positive amount and go between two different listed addresses.
  pub process_mempool_transactions-Inv :
      (order : List Transaction → List Transaction) (s : Blockchain lib)
      → ((txs : List Transaction) (tx : Transaction) → In tx (order txs) → In tx txs)
      → I s
      → Ensures I (λ _. I) (process_mempool_transactions order s)
  unfolding process_mempool_transactions get_mempool_transactions Mempool.get_all_transactions
      effects
  process_mempool_transactions-Inv order s ranges inv = elim (Option-cases s.mempool) [
    | inl missing ↦ Ensures-eq {q = (panic, s)} (ground (arith, missing)) (ensure inv)
    | inr (mp, there) ↦
        Ensures-eq {q = process_mempool_loop (order (Mempool.values mp.transactions)) [] s}
          (ground (arith, there))
          (process_mempool_loop-Inv (order (Mempool.values mp.transactions)) [] s inv
            (λ tx h. pool_proper s mp inv there tx (ranges _ tx h)))
  ]
