-- ===== src/Ledger/Conservation.antt =====
-- A transfer between two accounts keeps the total of the balances.
use go_blockchain_demo.Prelude.{
  ◌+◌, ◌≤◌, ◌<◌, ◌≡◌, ◌≢◌, refl, sym, ap, ap₂, subst, ◌∙◌, inl, inr, String, some, List, [], ◌∷◌,
  arith, str_eq_ne, eq_iff, uint64_mod,
}
use go_blockchain_demo.Records.{Account, Transaction}
use go_blockchain_demo.Ledger.Defs.{
  Ledger, write, sent, received, transfer, balance_of, total, Has, Distinct, IsLedger,
}

write_self : (k x : String) (a : Account) (ledger : Ledger) → k ≡ x → write k a ledger x ≡ some a
write_self k x a ledger e = ground (arith, eq_iff k x)

pub write_ne :
    (k x : String) (a : Account) (ledger : Ledger) → k ≢ x → write k a ledger x ≡ ledger x
write_ne k x a ledger h = ground (arith, str_eq_ne k x h)

total-write_absent :
    (k : String) (a : Account) (ledger : Ledger) (ks : List String)
    → ¬ Has k ks
    → total (write k a ledger) ks ≡ total ledger ks
total-write_absent k a ledger [] h = refl
total-write_absent k a ledger (x ∷ ks) h =
    ap₂ ◌+◌ (ap balance_of (write_ne k x a ledger (λ e. h (inl (sym e)))))
      (total-write_absent k a ledger ks (λ m. h (inr m)))

-- Writing one account moves the total by the difference of the balances.
pub total-write :
    (k : String) (a : Account) (ledger : Ledger) (ks : List String)
    → Distinct ks
    → Has k ks
    → total (write k a ledger) ks + balance_of (ledger k) ≡ total ledger ks + a.balance
total-write k a ledger [] d h = absurd h
total-write k a ledger (x ∷ ks) d (inl e) = omega (
  arith,
  ap balance_of (write_self k x a ledger (sym e)),
  ap (λ z. balance_of (ledger z)) e,
  total-write_absent k a ledger ks (λ m. d.0 (subst (λ z. Has z ks) (sym e) m)),
)
total-write k a ledger (x ∷ ks) d (inr m) = omega (
  arith,
  ap balance_of (write_ne k x a ledger (λ e. d.0 (subst (λ z. Has z ks) e m))),
  total-write k a ledger ks d.1 m,
)

-- The balance at one address is part of the total.
pub balance-le-total :
    (k : String) (ledger : Ledger) (ks : List String)
    → Has k ks
    → balance_of (ledger k) ≤ total ledger ks
balance-le-total k ledger [] h = absurd h
balance-le-total k ledger (x ∷ ks) (inl e) = omega (arith, ap (λ z. balance_of (ledger z)) e)
balance-le-total k ledger (x ∷ ks) (inr m) = omega (arith, balance-le-total k ledger ks m)

-- Two addresses: their balances together are part of the total.
pub two_balances-le-total :
    (j k : String) (ledger : Ledger) (ks : List String)
    → j ≢ k
    → Has j ks
    → Has k ks
    → balance_of (ledger j) + balance_of (ledger k) ≤ total ledger ks
two_balances-le-total j k ledger [] ne hj hk = absurd hj
two_balances-le-total j k ledger (x ∷ ks) ne (inl ej) (inl ek) = absurd (ne (sym ej ∙ ek))
two_balances-le-total j k ledger (x ∷ ks) ne (inl ej) (inr mk) =
    omega (arith, ap (λ z. balance_of (ledger z)) ej, balance-le-total k ledger ks mk)
two_balances-le-total j k ledger (x ∷ ks) ne (inr mj) (inl ek) =
    omega (arith, ap (λ z. balance_of (ledger z)) ek, balance-le-total j ledger ks mj)
two_balances-le-total j k ledger (x ∷ ks) ne (inr mj) (inr mk) =
    omega (arith, two_balances-le-total j k ledger ks ne mj mk)

-- A transfer of no more than the sender has, between two listed accounts, keeps the total.
pub total-transfer :
    (tx : Transaction) (from to : Account) (ledger : Ledger) (ks : List String)
    → Distinct ks
    → Has tx.from ks
    → Has tx.to ks
    → tx.from ≢ tx.to
    → ledger tx.from ≡ some from
    → ledger tx.to ≡ some to
    → tx.amount ≤ from.balance
    → total (transfer tx from to ledger) ks ≡ total ledger ks
total-transfer tx from to ledger ks d hf ht ne ef et covered = omega (
  arith,
  total-write tx.to (received tx.amount to) (write tx.from (sent tx.amount from) ledger) ks d ht,
  total-write tx.from (sent tx.amount from) ledger ks d hf,
  ap balance_of (write_ne tx.from tx.to (sent tx.amount from) ledger ne),
  ap balance_of ef,
  ap balance_of et,
)

write-IsLedger :
    (k : String) (a : Account) (ledger : Ledger)
    → IsLedger ledger
    → a.address ≡ k
    → a.balance < uint64_mod
    → a.nonce < uint64_mod
    → IsLedger (write k a ledger)
write-IsLedger k a ledger h key fits counts = record {
  keyed = λ j b e. ground (arith, eq_iff k j, h.keyed j b);
  balances = λ j b e. ground (arith, h.balances j b);
  nonces = λ j b e. ground (arith, h.nonces j b);
}

-- A transfer that does not pass the range of a uint64 keeps a ledger well formed.
pub transfer-IsLedger :
    (tx : Transaction) (from to : Account) (ledger : Ledger)
    → IsLedger ledger
    → ledger tx.from ≡ some from
    → ledger tx.to ≡ some to
    → to.balance + tx.amount < uint64_mod
    → IsLedger (transfer tx from to ledger)
transfer-IsLedger tx from to ledger h ef et fits =
    write-IsLedger tx.to (received tx.amount to) (write tx.from (sent tx.amount from) ledger)
      (write-IsLedger tx.from (sent tx.amount from) ledger h (h.keyed tx.from from ef)
        (let b = h.balances tx.from from ef in omega arith) (omega arith))
      (h.keyed tx.to to et) fits (h.nonces tx.to to et)
