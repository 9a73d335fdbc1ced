-- ===== src/Examples/Bls.antt =====
-- The theorems on the programs under bls-demo/, at the library in memory.
use mathlib.Core.Option.{some-injective}
use go_blockchain_demo.Prelude.{
  ℕ, zero, suc, sym, ◌∙◌, In, inl, inr, str_eq, false, ne_by_test, length, ◌≡◌, ◌≢◌, ◌↔◌, ◌≤◌, ◌<◌,
  refl, List, [], ◌∷◌, none, some, map, true, ok, err, errorf, String, arith,
}
use go_blockchain_demo.BlsDemo.{
  RingSignature, concat, get_elem?, verify_ring_signature, create_ring_signature, collect,
  recover_signature,
}
use go_blockchain_demo.BlsDemo.Memory.{toy, toy-IsComplete, toy-IsSound, toy-IsScheme}
use go_blockchain_demo.BlsDemo.RingVerify.{ValidAt, verify_ring_signature_lem}
use go_blockchain_demo.BlsDemo.RingFill.{drawn}
use go_blockchain_demo.BlsDemo.RingCreate.{
  verify_ring_signature-create_ring_signature, create_ring_signature-reveals,
}
use go_blockchain_demo.BlsDemo.Recovery.{signer_of, recover_signature-collect}

-- The keys of the first three signers that are made.
abbrev ring : List String
ring = drawn toy 3 0

abbrev forged : RingSignature String
forged = record { challenge = ""; responses = []; message = "m"; ring = ring }

verify_ring_signature_lem_example : (verify_ring_signature toy ring "m" forged ≡ true) ↔ (
    (length {V = String} [] ≡ length ring)
    × ((i : ℕ) × ValidAt toy "m" ring [] i)
    × (forged.challenge ≡ concat []))
unfolding concat
verify_ring_signature_lem_example = verify_ring_signature_lem toy ring "m" forged

verify_ring_signature-create_ring_signature_example :
    (signature : RingSignature String) × (w' : toy.World) × (create_ring_signature toy "signer'"
        ring 1 "m" 3
      ≡ (ok signature, w'))
    × (verify_ring_signature toy ring "m" signature ≡ true)
unfolding get_elem?
verify_ring_signature-create_ring_signature_example =
    verify_ring_signature-create_ring_signature toy toy-IsComplete "signer'" ring 1 refl "m" 3

apart : (a b key other : String) → some a ≡ some key → b ≡ other → str_eq a b ≡ false → key ≢ other
apart a b key other is_key is_other differ same =
    ne_by_test a b differ (some-injective a key is_key ∙ same ∙ sym is_other)

-- A signer that is made next has none of the keys of the ring.
not_member :
    (a key other : String)
    → some a ≡ some key
    → In other (drawn toy 3 3)
    → str_eq a "signer'''" ≡ false
    → str_eq a "signer''''" ≡ false
    → str_eq a "signer'''''" ≡ false
    → key ≢ other
not_member a key other is_key (inl e) d1 d2 d3 = apart a _ key other is_key e d1
not_member a key other is_key (inr (inl e)) d1 d2 d3 = apart a _ key other is_key e d2
not_member a key other is_key (inr (inr (inl e))) d1 d2 d3 = apart a _ key other is_key e d3
not_member a key other is_key (inr (inr (inr h))) d1 d2 d3 = absurd h

outside :
    (other : String) (i : ℕ) (key : String)
    → In other (drawn toy 3 3)
    → get_elem? ring i ≡ some key
    → key ≢ other
unfolding get_elem?
outside other zero key listed at_key = not_member _ key other at_key listed refl refl refl
outside other (suc zero) key listed at_key = not_member _ key other at_key listed refl refl refl
outside other (suc (suc zero)) key listed at_key =
    not_member _ key other at_key listed refl refl refl
outside other (suc (suc (suc i))) key listed at_key = cc

create_ring_signature-reveals_example :
    (signature : RingSignature String) × (w' : toy.World) × (create_ring_signature toy "signer'"
        ring 1 "m" 3
      ≡ (ok signature, w'))
    × ((i : ℕ) → ValidAt toy "m" ring signature.responses i ↔ (i ≡ 1))
unfolding get_elem?
create_ring_signature-reveals_example =
    create_ring_signature-reveals toy toy-IsComplete "signer'" ring 1 refl "m" 3 toy-IsSound outside

recover_signature-collect_example :
    (sigs : List String) × (collect toy "m"
        (map (signer_of toy "secret" 2 3) ("secret" ∷ "secret" ∷ "secret" ∷ []))
        0
        2
        0
      ≡ (ok sigs, 0))
    × ((2 ≤ 2)
        → (recovered : String) × (recover_signature toy "m" sigs 2 3 "secret" 0 ≡ (ok recovered, 0))
          × (toy.verify "secret" "m" recovered ≡ none))
    × ((2 < 2)
        → recover_signature toy "m" sigs 2 3 "secret" 0
          ≡ (err (errorf "không đủ chữ ký: đã có %d, cần %d" ""), 0))
recover_signature-collect_example =
    recover_signature-collect toy "secret" 2 3 _ (toy-IsScheme 2 3) "m" 2 0 (omega arith)
