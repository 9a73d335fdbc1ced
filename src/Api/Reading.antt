-- ===== src/Api/Reading.antt =====
-- The reads of app/internal/api/server.go at a healthy node, from the path of a request to the
-- response.
use Prim.Native.String.{◌++◌, count}
use text.Mathlib.TextLemmas.{nil-append, cons-append, length-cons}
use go_blockchain_demo.Prelude.{
  ap, String, ◌≡◌, ◌≢◌, none, some, ok, errorf, arith, effects, str_eq_ne,
}
use go_blockchain_demo.Records.{Account}
use go_blockchain_demo.Library.{Library}
use go_blockchain_demo.Library.Laws.{Laws}
use go_blockchain_demo.State.{Blockchain, accounts}
use go_blockchain_demo.State.View.{IsHealthy, view}
use go_blockchain_demo.Accounts.Laws.{
  account_at, get_account_from_trie-found, get_account_from_trie-missing,
}
use go_blockchain_demo.Api.Defs.{path_from, account_body, account, failure, handle_get_account}

path_from-append : (s t : String) → path_from (count s) (s ++ t) ≡ ok t
unfolding path_from
path_from-append String.[] t = ap ok (nil-append t)
path_from-append (String.◌∷◌ c s) t = rw (length-cons c s, cons-append c s t) (path_from-append s t)

module _ (lib : Library) (laws : Laws lib) where
  -- A GET at a healthy node for an address that is not empty leaves the node as it is, and is
  -- answered with status 200 and the account if the ledger has one, and with status 404 if the trie
  -- holds nothing under the address.
  pub handle_get_account_lem :
      (address : String) (s : Blockchain lib)
      → IsHealthy lib laws s
      → address ≢ ""
      → ((a : Account)
          → account_at lib laws s address ≡ some a
          → handle_get_account "GET" ("/api/account/" ++ address) s ≡ (
            ok (record { status = 200; body = account a.address a.balance a.public_key a.nonce }),
            s,
          ))
        × (view lib laws accounts s address ≡ none
            → handle_get_account "GET" ("/api/account/" ++ address) s ≡ (
              ok (record {
                status = 404;
                body =
                    failure "Lỗi khi lấy tài khoản: %v"
                      (errorf "không tìm thấy account với địa chỉ: %s" address);
              }),
              s,
            ))
  unfolding handle_get_account account_body effects
  handle_get_account_lem address s healthy nonempty =
      let path : path_from 13 ("/api/account/" ++ address) ≡ ok address =
        path_from-append "/api/account/" address in
      let filled = str_eq_ne address "" nonempty in
      (
        λ a there.
            ground
              (arith, path, filled, get_account_from_trie-found lib laws s address a healthy there),
        λ missing.
            ground (
              arith,
              path,
              filled,
              get_account_from_trie-missing lib laws s address healthy missing,
            ),
      )
