-- ===== src/Accounts/Laws.antt =====
-- Saving and reading an account, under the laws of the libraries.
use mathlib.Core.Option.{some-injective}
use go_blockchain_demo.Prelude.{
  String, ◌≡◌, ◌≢◌, Option, none, some, ok, err, errorf, arith, effects, sym, ap, ◌∙◌,
}
use go_blockchain_demo.Ledger.{write}
use go_blockchain_demo.Records.{Account}
use go_blockchain_demo.Library.{Library}
use go_blockchain_demo.Library.Laws.{Laws}
use go_blockchain_demo.State.{Blockchain, Slot}
use go_blockchain_demo.State.Laws.{commit_to_database_lem, restore_lem}
use go_blockchain_demo.State.View.{IsHealthy, Saved, view, decode, put_trie-Saved}
use go_blockchain_demo.Accounts.Defs.{save_account_to_trie, get_account_from_trie}

module _ (lib : Library) (laws : Laws lib) where
  -- The account that the trie holds under an address.
  abbrev pub account_at : Blockchain lib → String → Option Account
  account_at s address = decode lib.account_codec (view lib laws Slot.accounts s address)

  -- At a healthy node, an account whose encoding is not what the trie holds under its address is
  -- saved: the trie holds it under that address and what it held elsewhere, in memory and on the
  -- disk, the node stays healthy, and the other tries, names of the database and fields are as they
  -- were.
  pub save_account_to_trie-Saved :
      (s : Blockchain lib) (account : Account) (value : lib.Blob)
      → IsHealthy lib laws s
      → lib.account_codec.marshal account ≡ ok value
      → view lib laws Slot.accounts s account.address ≢ some value
      → (s' : Blockchain lib) × (save_account_to_trie account s ≡ (ok tt, s'))
        × Saved lib laws Slot.accounts account.address value s s'
  unfolding save_account_to_trie effects
  save_account_to_trie-Saved s account value healthy encodes new =
      let (t, here, open_t) = healthy.opened Slot.accounts in
      let (t1, t2, root, w, writes, committed) =
        commit_to_database_lem lib laws Slot.accounts s t "lỗi khi cập nhật account trie"
          account.address value healthy.fine here open_t (λ q. new (rw here q)) in
      let (w', puts, fine', names, kept) =
        laws.db_put_lem "ACC_ROOT_HASH" (lib.hash_bytes root) w committed.fine in
      let (u, opens, open_u, same) =
        restore_lem lib laws (record s { world = w'; acc_trie = some t2 }) root (laws.contents t1)
          fine' (kept root (laws.contents t1) committed.persisted) in
      (
        record s { world = w'; acc_trie = some u },
        ground (arith, encodes, committed.runs, puts, opens),
        put_trie-Saved lib laws Slot.accounts account.address value s t u root (laws.contents t1) w'
            healthy here writes fine' open_u same (λ k. rw (← committed.same k) (names k))
            (kept root _ committed.persisted) (λ h d p. kept h d (committed.kept h d p)),
      )

  pub get_account_from_trie-found :
      (s : Blockchain lib) (address : String) (account : Account)
      → IsHealthy lib laws s
      → account_at s address ≡ some account
      → get_account_from_trie address s ≡ (ok account, s)
  unfolding get_account_from_trie effects
  get_account_from_trie-found s address account healthy found =
      let (t, here, open_t) = healthy.opened Slot.accounts in
      ground (arith, here, laws.trie_get_lem t address s.world healthy.fine open_t)

  pub get_account_from_trie-missing :
      (s : Blockchain lib) (address : String)
      → IsHealthy lib laws s
      → view lib laws Slot.accounts s address ≡ none
      → get_account_from_trie address s
        ≡ (err (errorf "không tìm thấy account với địa chỉ: %s" address), s)
  unfolding get_account_from_trie effects
  get_account_from_trie-missing s address healthy missing =
      let (t, here, open_t) = healthy.opened Slot.accounts in
      ground (arith, here, laws.trie_get_lem t address s.world healthy.fine open_t)

  -- After a save the ledger has the account under its address, and is as before elsewhere.
  pub account_at-Saved :
      (s s' : Blockchain lib) (account : Account) (value : lib.Blob) (k : String)
      → Saved lib laws Slot.accounts account.address value s s'
      → lib.account_codec.unmarshal value ≡ ok account
      → account_at s' k ≡ write account.address account (account_at s) k
  account_at-Saved s s' account value k saved decodes =
      rw (saved.writes k) (ground (arith, decodes))

  -- Another account is written by another value.
  pub value_differs :
      (s : Blockchain lib) (old new : Account) (k : String) (value : lib.Blob)
      → account_at s k ≡ some old
      → lib.account_codec.unmarshal value ≡ ok new
      → old ≢ new
      → view lib laws Slot.accounts s k ≢ some value
  value_differs s old new k value e decodes ne same =
      let decoded : decode lib.account_codec (some value) ≡ some new = ground (arith, decodes) in
      ne (some-injective old new (sym e ∙ ap (decode lib.account_codec) same ∙ decoded))
