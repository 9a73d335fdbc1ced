-- ===== src/Peer/Pooled.antt =====
-- A transaction of a peer that is put into the pool
-- (the case of `TransactionMsg` in app/internal/p2pnetwork/p2pnetwork.go).
use mathlib.Core.Option.{some-injective}
use go_blockchain_demo.Prelude.{
  ℕ, String, ◌≡◌, refl, sym, ap, subst, some, List, ok, err, panic, arith, effects, errorf, inl,
  inr, Option-cases, In, In-insert, insert, lookup, Ensures, ensure, Ensures-eq,
}
use go_blockchain_demo.Records.{slice_bytes, Transaction}
use go_blockchain_demo.Library.{Library}
use go_blockchain_demo.Library.Laws.{Laws}
use go_blockchain_demo.Mempool
use go_blockchain_demo.State.{Blockchain, Mempool}
use go_blockchain_demo.State.Chain.{SameDisk-refl, SameChain-refl, moved}
use go_blockchain_demo.Transactions.{in_mempool}
use go_blockchain_demo.Transactions.Invariant.{IsProper}
use go_blockchain_demo.Chain.Heads.{Heads}
use go_blockchain_demo.Chain.Invariant.{NodeAt, Reached, stays, processed}

module _ (lib : Library) (laws : Laws lib) (addresses : List String) (sum : ℕ) where
  -- A transaction that is put into the pool.
  pooled-NodeAt :
      (heads : Heads) (tx : Transaction) (s : Blockchain lib) (mp : Mempool)
      → NodeAt lib laws addresses sum heads s
      → s.mempool ≡ some mp
      → IsProper lib addresses (lib.hex_encode (slice_bytes tx.id)) tx
      → NodeAt lib laws addresses sum heads (record s {
        mempool = some (record mp {
          transactions = insert (lib.hex_encode (slice_bytes tx.id)) tx mp.transactions;
        });
      })
  pooled-NodeAt heads tx s mp node there proper =
      let key : String = lib.hex_encode (slice_bytes tx.id) in
      processed lib laws addresses sum heads s _ node (record {
        healthy = record { fine = node.inv.healthy.fine; opened = node.inv.healthy.opened };
        well_formed = node.inv.well_formed;
        conserved = node.inv.conserved;
        pool = λ mp' e k tx' listed.
            let same : insert key tx mp.transactions ≡ mp'.transactions =
              ap (λ (m : Mempool). m.transactions) (some-injective _ mp' e) in
            elim (In-insert key tx (k, tx') mp.transactions
              (subst (In (k, tx')) (sym same) listed)) [
                | inl new ↦
                    subst (λ z. IsProper lib addresses z tx') (ap (λ p. p.0) new)
                      (subst (IsProper lib addresses key) (ap (λ p. p.1) new) proper)
                | inr old ↦ node.inv.pool mp there k tx' old
              ];
        network = node.inv.network;
        chain =
            moved lib laws s s _ (SameDisk-refl lib laws s.world) (λ slot. refl) refl refl
              (SameChain-refl lib laws s);
      })

  pub pools :
      (heads : Heads) (tx : Transaction) (s : Blockchain lib)
      → NodeAt lib laws addresses sum heads s
      → IsProper lib addresses (lib.hex_encode (slice_bytes tx.id)) tx
      → Ensures
          (Reached lib laws addresses sum heads)
          (λ _. Reached lib laws addresses sum heads)
          (in_mempool (Mempool.add_transaction lib tx) s)
  unfolding Mempool.add_transaction effects
  pools heads tx s node proper =
      let here = stays lib laws addresses sum heads s node in
      elim (Option-cases s.mempool) [
        | inl missing ↦ Ensures-eq {q = (panic, s)} (ground (arith, missing)) (ensure here)
        | inr (mp, there) ↦
            let key : String = lib.hex_encode (slice_bytes tx.id) in
            elim (Option-cases (lookup key mp.transactions)) [
              | inl absent ↦
                  Ensures-eq
                    {q = (
                      ok tt,
                      record s {
                        mempool = some (record mp { transactions = insert key tx mp.transactions });
                      },
                    )}
                    (ground (arith, there, absent))
                    (ensure (
                      stays lib laws addresses sum heads _
                        (pooled-NodeAt heads tx s mp node there proper)))
              | inr (old, known) ↦
                  Ensures-eq
                    {q = (
                      err (errorf "giao dịch đã tồn tại trong mempool: %s" key),
                      record s { mempool = some mp },
                    )}
                    (ground (arith, there, known))
                    (ensure (
                      subst (Reached lib laws addresses sum heads)
                        (ap (λ m. record s { mempool = m }) there) here))
            ]
      ]
