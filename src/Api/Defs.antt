-- ===== src/Api/Defs.antt =====
-- The handlers of app/internal/api/server.go.
use go_blockchain_demo.Prelude.{
  ℕ, zero, suc, String, List, Outcome, ok, err, panic, Error, Action, pure, panics, lift, attempt,
  ◌>>=◌, str_eq, ◌||◌, not, if◌then◌else◌,
}
use go_blockchain_demo.Records.{slice_bytes, Account, Transaction, Block}
use go_blockchain_demo.Library.{Library}
use go_blockchain_demo.State.{Blockchain}
use go_blockchain_demo.Accounts.{get_account_from_trie}
use go_blockchain_demo.Transactions.{create_and_add_transaction, get_transaction_by_id_from_node}
use go_blockchain_demo.Chain.{get_last_block, get_current_block}

-- What a handler writes: the text of `http.Error`, with the error where it prints one, or the
-- `data` (or `transaction`) of a response whose `success` is true.
pub data Body : Type 0 where
  text : String → Body
  failure : String → Error → Body
  account : String → ℕ → String → ℕ → Body
  transaction : String → String → String → ℕ → ℕ → Body
  block : ℕ → ℕ → String → ℕ → String → List String → Body

pub record Response : Type 0 where
  pub status : ℕ
  pub body : Body

abbrev reply : ℕ → Body → Response
reply status body = record { status = status; body = body }

-- `path[n:]`, which panics where the path is shorter
unfoldable pub path_from : ℕ → String → Outcome String
path_from zero path = ok path
path_from (suc n) String.[] = panic
path_from (suc n) (String.◌∷◌ c path) = path_from n path

unfoldable pub account_body : Account → Body
account_body a = account a.address a.balance a.public_key a.nonce

unfoldable block_body : Block → Body
block_body b =
    block b.index b.block_header.version b.block_header.merkle_root b.block_header.time
      b.block_header.signature b.txns

unfoldable transaction_body : Library → Transaction → Body
transaction_body lib tx =
    transaction (lib.hex_encode (slice_bytes tx.id)) tx.from tx.to tx.amount tx.timestamp

-- The request of `handleTransaction`, once decoded.
pub record TransactionRequest (lib : Library) : Type 0 where
  pub from : String
  pub to : String
  pub amount : lib.Float
  pub private_key_hex : String

module _ {lib : Library} where
  -- `if err != nil { http.Error(w, text, status); return }`, and the rest of the handler.
  abbrev answering :
      {A : Type 0}
      → Action (Blockchain lib) A
      → (Error → Response)
      → (A → Response)
      → Action (Blockchain lib) Response
  answering m failed done = do
    r ← attempt m
    elim r [ ok a ↦ pure (done a) | err e ↦ pure (failed e) | panic ↦ panics ]

  -- `s.handleGetAccount`
  unfoldable pub handle_get_account : String → String → Action (Blockchain lib) Response
  unfolding account_body path_from
  handle_get_account method path =
      if not (str_eq method "GET")
      then pure (reply 405 (text "Phương thức không được phép"))
      else do
        address ← lift (path_from 13 path)
        if str_eq address ""
            then pure (reply 400 (text "Yêu cầu phải có địa chỉ"))
            else answering (get_account_from_trie address)
                (λ e. reply 404 (failure "Lỗi khi lấy tài khoản: %v" e))
                (λ a. reply 200 (account_body a))

  -- `s.handleTransaction`, on what the JSON decoder makes of the body of the request.
  unfoldable pub handle_transaction :
      (List Transaction → List Transaction)
      → String
      → Outcome (TransactionRequest lib)
      → Action (Blockchain lib) Response
  unfolding transaction_body
  handle_transaction order method decoded =
      if not (str_eq method "POST")
      then pure (reply 405 (text "Phương thức không được phép"))
      else elim decoded [
        | panic ↦ panics
        | err e ↦ pure (reply 400 (failure "Lỗi khi đọc dữ liệu: %v" e))
        | ok req ↦
            if str_eq req.from ""
              || str_eq req.to ""
              || lib.float_le_zero req.amount
              || str_eq req.private_key_hex ""
            then pure (reply 400 (text "Thiếu thông tin giao dịch"))
            else answering
                (create_and_add_transaction order req.from req.to req.amount req.private_key_hex)
                (λ e. reply 500 (failure "Lỗi khi tạo giao dịch: %v" e))
                (λ tx. reply 201 (transaction_body lib tx))
      ]

  -- `s.handleGetTransaction`
  unfoldable pub handle_get_transaction : String → String → Action (Blockchain lib) Response
  unfolding transaction_body path_from
  handle_get_transaction method path =
      if not (str_eq method "GET")
      then pure (reply 405 (text "Phương thức không được phép"))
      else do
        tx_id ← lift (path_from 17 path)
        if str_eq tx_id ""
            then pure (reply 400 (text "Yêu cầu phải có ID giao dịch"))
            else answering (get_transaction_by_id_from_node tx_id)
                (λ e. reply 404 (failure "Lỗi khi lấy giao dịch: %v" e))
                (λ tx. reply 200 (transaction_body lib tx))

  -- `s.handleGetLastBlock`
  unfoldable pub handle_get_last_block : String → Action (Blockchain lib) Response
  unfolding block_body
  handle_get_last_block method =
      if not (str_eq method "GET")
      then pure (reply 405 (text "Phương thức không được phép"))
      else answering get_last_block (λ e. reply 500 (failure "Lỗi khi lấy last block: %v" e))
          (λ b. reply 200 (block_body b))

  -- `s.handleGetCurrentBlock`
  unfoldable pub handle_get_current_block : String → Action (Blockchain lib) Response
  unfolding block_body
  handle_get_current_block method =
      if not (str_eq method "GET")
      then pure (reply 405 (text "Phương thức không được phép"))
      else answering get_current_block (λ e. reply 500 (failure "Lỗi khi lấy current block: %v" e))
          (λ b. reply 200 (block_body b))
