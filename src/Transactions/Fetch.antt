-- ===== src/Transactions/Fetch.antt =====
-- A transaction that `GetTransactionByID` gives is proper, where the trie does not hold one.
use mathlib.Core.Option.{some-injective}
use go_blockchain_demo.Prelude.{
  ℕ, String, ◌≡◌, refl, sym, ap, subst, Option, none, some, List, ok, err, panic, errorf, arith,
  effects, inl, inr, Option-cases, lookup, lookup-In, Ensures, ensure, Ensures-eq, Ensures-bind,
}
use go_blockchain_demo.Records.{Transaction}
use go_blockchain_demo.Library.{Library, Reply, response, failed, timeout, P2pNetworkInterface}
use go_blockchain_demo.Library.Laws.{Laws}
use go_blockchain_demo.Mempool
use go_blockchain_demo.State.{Blockchain, Mempool, transactions}
use go_blockchain_demo.State.View.{IsHealthy, view}
use go_blockchain_demo.State.Chain.{moved}
use go_blockchain_demo.Transactions.Defs.{get_transaction_from_trie}
use go_blockchain_demo.Transactions.Lookup.{
  find_locally, await_reply, ask_network, or_ask_network, get_transaction_by_id,
}
use go_blockchain_demo.Transactions.Invariant.{IsProper, Inv}

module _ (lib : Library) (laws : Laws lib) where
  -- The lookup that does not ask the network, on each of its paths but that of a bad ID.
  pub find_locally-pooled :
      (s : Blockchain lib) (tx_id : String) (mp : Mempool) (tx : Transaction)
      → s.mempool ≡ some mp
      → lookup tx_id mp.transactions ≡ some tx
      → find_locally tx_id s ≡ (ok (some tx), s)
  unfolding find_locally Mempool.get_transaction effects
  find_locally-pooled s tx_id mp tx there found = ground (arith, there, found)

  pub find_locally-absent :
      (s : Blockchain lib) (tx_id bytes : String) (mp : Mempool)
      → IsHealthy lib laws s
      → s.mempool ≡ some mp
      → lookup tx_id mp.transactions ≡ none
      → lib.hex_decode tx_id ≡ ok bytes
      → view lib laws transactions s bytes ≡ none
      → find_locally tx_id s ≡ (ok none, s)
  unfolding find_locally Mempool.get_transaction get_transaction_from_trie effects
  find_locally-absent s tx_id bytes mp healthy there absent decodes is_new =
      let (t, here, open_t) = healthy.opened transactions in
      ground (
        arith,
        there,
        absent,
        decodes,
        here,
        laws.trie_get_lem t bytes s.world healthy.fine open_t,
        is_new,
      )

  find_locally-panics :
      (s : Blockchain lib) (tx_id : String) → s.mempool ≡ none → find_locally tx_id s ≡ (panic, s)
  unfolding find_locally effects
  find_locally-panics s tx_id missing = ground (arith, missing)

module _ (lib : Library) (laws : Laws lib) (addresses : List String) (sum : ℕ)
    (base : Blockchain lib) where
  -- What is known of a transaction that was looked up, and of the node after that.
  pub record Fetched (tx_id : String) (s : Blockchain lib) (found : Option Transaction)
      (s' : Blockchain lib) : Type 0 where
    pub inv : Inv lib laws addresses sum base s'
    pub same_tx_trie : s'.tx_trie ≡ s.tx_trie
    pub proper : (tx : Transaction) → found ≡ some tx → IsProper lib addresses tx_id tx

  find_locally-Fetched :
      (s : Blockchain lib) (tx_id bytes : String)
      → Inv lib laws addresses sum base s
      → lib.hex_decode tx_id ≡ ok bytes
      → view lib laws transactions s bytes ≡ none
      → Ensures
          (Inv lib laws addresses sum base)
          (λ found s'. (s' ≡ s) × Fetched tx_id s found s')
          (find_locally tx_id s)
  find_locally-Fetched s tx_id bytes inv decodes is_new = elim (Option-cases s.mempool) [
    | inl missing ↦ Ensures-eq (find_locally-panics lib laws s tx_id missing) (ensure inv)
    | inr (mp, there) ↦ elim (Option-cases (lookup tx_id mp.transactions)) [
      | inl absent ↦
          Ensures-eq
            (find_locally-absent lib laws s tx_id bytes mp inv.healthy there absent decodes is_new)
            (ensure (refl, record { inv = inv; same_tx_trie = refl; proper = λ tx e. cc }))
      | inr (tx, found) ↦ Ensures-eq (find_locally-pooled lib laws s tx_id mp tx there found) (
          ensure (
            refl,
            record {
              inv = inv;
              same_tx_trie = refl;
              proper = λ tx' e.
                  inv.pool mp there tx_id tx'
                    (lookup-In tx_id tx' mp.transactions (ground (arith, found, e)));
            },
          ))
    ]
  ]

  -- The network is asked: the node changes by what the request does to the world.
  asked-Inv :
      (s : Blockchain lib) (net : P2pNetworkInterface lib.World) (tx_id : String)
      → Inv lib laws addresses sum base s
      → s.p2p_network ≡ some net
      → Inv lib laws addresses sum base
          (record s { world = (net.request_transaction tx_id s.world).1 })
  asked-Inv s net tx_id inv there = record {
    healthy = record {
      fine = (inv.network net there).fine tx_id s.world inv.healthy.fine;
      opened = inv.healthy.opened;
    };
    well_formed = inv.well_formed;
    conserved = inv.conserved;
    pool = inv.pool;
    network = inv.network;
    chain =
        moved lib laws base s _ ((inv.network net there).same_disk tx_id s.world) (λ slot. refl)
          refl refl inv.chain;
  }

  await_reply-Fetched :
      (s s' : Blockchain lib) (tx_id : String) (reply : Reply)
      → Inv lib laws addresses sum base s'
      → s'.tx_trie ≡ s.tx_trie
      → ((tx : Transaction) → reply ≡ response tx → IsProper lib addresses tx_id tx)
      → Ensures (Inv lib laws addresses sum base) (Fetched tx_id s) (await_reply reply s')
  unfolding await_reply
  await_reply-Fetched s s' tx_id (response tx) inv same honest = ensure (record {
    inv = inv;
    same_tx_trie = same;
    proper = λ tx' e. honest tx' (ap response (some-injective tx tx' e));
  })
  await_reply-Fetched s s' tx_id failed inv same honest =
      ensure (record { inv = inv; same_tx_trie = same; proper = λ tx e. cc })
  await_reply-Fetched s s' tx_id timeout inv same honest = ensure inv

  ask_network-Fetched :
      (s : Blockchain lib) (tx_id : String)
      → Inv lib laws addresses sum base s
      → Ensures (Inv lib laws addresses sum base) (Fetched tx_id s) (ask_network tx_id s)
  unfolding ask_network effects
  ask_network-Fetched s tx_id inv = elim (Option-cases s.p2p_network) [
    | inl missing ↦
        Ensures-eq {q = (err (errorf "không tìm thấy giao dịch với ID: %s" tx_id), s)}
          (ground (arith, missing)) (ensure inv)
    | inr (net, there) ↦
        let (reply, w) = net.request_transaction tx_id s.world in
        Ensures-eq {q = await_reply reply (record s { world = w })} (ground (arith, there)) (
          await_reply-Fetched s (record s { world = w }) tx_id reply
            (asked-Inv s net tx_id inv there) refl ((inv.network net there).proper tx_id s.world))
  ]

  or_ask_network-Fetched :
      (s : Blockchain lib) (tx_id : String) (found : Option Transaction)
      → Fetched tx_id s found s
      → Ensures (Inv lib laws addresses sum base) (Fetched tx_id s) (or_ask_network tx_id found s)
  unfolding or_ask_network
  or_ask_network-Fetched s tx_id none h = ask_network-Fetched s tx_id h.inv
  or_ask_network-Fetched s tx_id (some tx) h = ensure h

  -- From a node that keeps the invariant, every path of the lookup keeps it, and what is found is
  -- proper.
  pub get_transaction_by_id-Fetched :
      (s : Blockchain lib) (tx_id bytes : String)
      → Inv lib laws addresses sum base s
      → lib.hex_decode tx_id ≡ ok bytes
      → view lib laws transactions s bytes ≡ none
      → Ensures (Inv lib laws addresses sum base) (Fetched tx_id s) (get_transaction_by_id tx_id s)
  unfolding get_transaction_by_id
  get_transaction_by_id-Fetched s tx_id bytes inv decodes is_new =
      Ensures-bind (find_locally tx_id) _ (find_locally-Fetched s tx_id bytes inv decodes is_new)
        λ found s' h.
          let fetched : Fetched tx_id s found s = subst (Fetched tx_id s found) h.0 h.1 in
          subst
            (λ z.
              Ensures (Inv lib laws addresses sum base) (Fetched tx_id s)
                (or_ask_network tx_id found z))
            (sym h.0) (or_ask_network-Fetched s tx_id found fetched)
