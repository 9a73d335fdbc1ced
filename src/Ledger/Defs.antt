-- ===== src/Ledger/Defs.antt =====
-- A ledger maps addresses to accounts. `transfer` is what the two processing loops promise.
use go_blockchain_demo.Prelude.{
  ℕ, ◌+◌, ◌-◌, ◌%◌, ◌<◌, ◌≡◌, ◌⊎◌, String, Option, none, some, List, [], ◌∷◌, str_eq, ⊤,
  if◌then◌else◌, uint64_mod,
}
use go_blockchain_demo.Records.{Account, Transaction}

abbrev pub Ledger : Type 0
Ledger = String → Option Account

abbrev pub write : String → Account → Ledger → Ledger
write address account ledger k = if str_eq address k then some account else ledger k

-- The sender after a transfer: the amount is gone, and one transaction more is counted, on uint64.
abbrev pub sent : ℕ → Account → Account
sent amount a = record a { balance = a.balance - amount; nonce = (a.nonce + 1) % uint64_mod }

abbrev pub received : ℕ → Account → Account
received amount a = record a { balance = a.balance + amount }

-- The transfer from one account to another.
abbrev pub transfer : Transaction → Account → Account → Ledger → Ledger
transfer tx from to ledger =
    write tx.to (received tx.amount to) (write tx.from (sent tx.amount from) ledger)

-- Every account stands under its own address, and its numbers are in the range of a uint64.
pub record IsLedger (ledger : Ledger) : Type 0 where
  pub keyed : (k : String) (a : Account) → ledger k ≡ some a → a.address ≡ k
  pub balances : (k : String) (a : Account) → ledger k ≡ some a → a.balance < uint64_mod
  pub nonces : (k : String) (a : Account) → ledger k ≡ some a → a.nonce < uint64_mod

abbrev pub balance_of : Option Account → ℕ
balance_of none = 0
balance_of (some a) = a.balance

-- The sum of the balances at some addresses.
abbrev pub total : Ledger → List String → ℕ
total ledger [] = 0
total ledger (k ∷ ks) = balance_of (ledger k) + total ledger ks

abbrev pub Has : String → List String → Type 0
Has k [] = ⊥
Has k (x ∷ xs) = (x ≡ k) ⊎ Has k xs

-- No address is listed twice.
abbrev pub Distinct : List String → Type 0
Distinct [] = ⊤
Distinct (x ∷ xs) = (¬ Has x xs) × Distinct xs
