-- ===== src/Peer/Answers.antt =====
-- Which answer of a peer a node takes (app/internal/p2pnetwork/p2pnetwork.go).
use mathlib.Core.Option.{some-injective}
use mathlib.Core.List.{◌++◌}
use go_blockchain_demo.Prelude.{
  String, ◌≡◌, ◌≢◌, ◌↔◌, refl, sym, ap, ap₂, subst, ◌∙◌, Option, none, some, List, [], ◌∷◌, Bool,
  Outcome, ok, err, panic, Error, errorf, ⊤, arith, Assoc, In, inl, inr, Bool-cases, str_eq,
  str_eq_ne, eq_iff, ◌⊎◌,
}
use go_blockchain_demo.Records.{Transaction}
use go_blockchain_demo.Library.{Library, response}
use go_blockchain_demo.Peer.Table.{P2pNetwork, get_all_peer_rws}
use go_blockchain_demo.Peer.Request.{
  Contact, Reading, exchange, sent, send_error, send_timeout, other_code, answer, decode_panic,
  read_error, read_timeout, peer_result, first_result, connected_peers, Environment,
  request_transaction, as_reply, network_interface,
}

-- A goroutine that ends and tells nobody: the peer was closing its connection, or it sent a message of
-- another kind.
pub data IsSilent : Contact → Type 0 where
  closing :
      (peer_id : String) (reading : Reading)
      → IsSilent (exchange peer_id (send_error "shutting down") reading)
  unknown : (peer_id : String) → IsSilent (exchange peer_id sent other_code)

abbrev pub AllSilent : List Contact → Type 0
AllSilent [] = ⊤
AllSilent (contact ∷ contacts) = IsSilent contact × AllSilent contacts

-- The first goroutine that is not silent has the transaction of its peer.
abbrev pub Answers : List Contact → Transaction → Type 0
Answers contacts tx =
    (silent later : List Contact) × (peer_id : String) × (contacts
      ≡ silent ++ exchange peer_id sent (answer (some tx)) ∷ later)
    × AllSilent silent

IsSilent-none : (contact : Contact) → IsSilent contact → peer_result contact ≡ none
unfolding peer_result
IsSilent-none _ (closing peer_id reading) = refl
IsSilent-none _ (unknown peer_id) = refl

-- A goroutine is silent, or has a transaction, or an error.
result_cases :
    (contact : Contact)
    → (IsSilent contact × (peer_result contact ≡ none))
      ⊎ ((peer_id : String) × (tx : Transaction) × (contact
            ≡ exchange peer_id sent (answer (some tx)))
          × (peer_result contact ≡ some (ok tx)))
      ⊎ ((e : Error) × (peer_result contact ≡ some (err e)))
unfolding peer_result
result_cases (exchange p sent other_code) = inl (unknown p, refl)
result_cases (exchange p sent (answer none)) = inr (inr (_, refl))
result_cases (exchange p sent (answer (some tx))) = inr (inl (p, tx, refl, refl))
result_cases (exchange p sent decode_panic) = inr (inr (_, refl))
result_cases (exchange p sent (read_error text)) = inr (inr (_, refl))
result_cases (exchange p sent read_timeout) = inr (inr (_, refl))
result_cases (exchange p (send_error text) reading) =
    elim (Bool-cases (str_eq text "shutting down")) [
      | inl same ↦
          let is_text : text ≡ "shutting down" =
            ground (arith, same, eq_iff text "shutting down") in
          inl (
            subst (λ t. IsSilent (exchange p (send_error t) reading)) (sym is_text)
                (closing p reading),
            ground (arith, same),
          )
      | inr other ↦ inr (inr (errorf "lỗi khi gửi yêu cầu tới peer %s" p, ground (arith, other)))
    ]
result_cases (exchange p send_timeout reading) = inr (inr (_, refl))

first_result-Answers :
    (contacts : List Contact) (tx : Transaction)
    → first_result contacts ≡ ok tx
    → Answers contacts tx
unfolding first_result
first_result-Answers [] tx e = cc
first_result-Answers (contact ∷ contacts) tx e = elim (result_cases contact) [
  | inl (quiet, gives) ↦
      let (silent, later, peer_id, splits, all) =
        first_result-Answers contacts tx (ground (arith, e, gives)) in
      (contact ∷ silent, later, peer_id, ap (λ cs. contact ∷ cs) splits, (quiet, all))
  | inr (inl (peer_id, tx', has, gives)) ↦
      let same : tx' ≡ tx = ground (arith, e, gives) in
      (
        [],
        contacts,
        peer_id,
        ap (λ c. c ∷ contacts) (has ∙ ap (λ t. exchange peer_id sent (answer (some t))) same),
        tt,
      )
  | inr (inr (error, gives)) ↦ ground (arith, e, gives)
]

Answers-first_result :
    (silent later : List Contact) (peer_id : String) (tx : Transaction)
    → AllSilent silent
    → first_result (silent ++ exchange peer_id sent (answer (some tx)) ∷ later) ≡ ok tx
unfolding first_result peer_result
Answers-first_result [] later peer_id tx all = refl
Answers-first_result (contact ∷ silent) later peer_id tx all =
    ground (arith, IsSilent-none contact all.0, Answers-first_result silent later peer_id tx all.1)

response_of : (r : Outcome Transaction) (tx : Transaction) → as_reply r ≡ response tx → r ≡ ok tx
unfolding as_reply
response_of (ok t) tx e = cc
response_of (err e') tx e = cc
response_of panic tx e = cc

List-cases {ℓ} :
    {A : Type ℓ} → (xs : List A) → (xs ≡ []) ⊎ ((x : A) × (rest : List A) × (xs ≡ x ∷ rest))
List-cases [] = inl refl
List-cases (x ∷ rest) = inr (x, rest, refl)

is_missing : {A : Type 0} (a : A) → Option.none ≢ some a
is_missing a e = cc

connected_peers-In :
    {Connection : Type 0} (rws : Assoc (Option Connection)) (peer_id : String) (rw : Connection)
    → In (peer_id, rw) (connected_peers rws) ↔ In (peer_id, some rw) rws
unfolding connected_peers
connected_peers-In [] peer_id rw = (λ h. h, λ h. h)
connected_peers-In ((p, none) ∷ rws) peer_id rw =
    let rest = connected_peers-In rws peer_id rw in
    (
      λ h. inr (rest.0 h),
      λ h. elim h [ inl e ↦ absurd (is_missing rw (ap (λ q. q.1) e)) | inr l ↦ rest.1 l ],
    )
connected_peers-In ((p, some c) ∷ rws) peer_id rw =
    let rest = connected_peers-In rws peer_id rw in
    (
      λ h. elim h [ inl e ↦ inl (ap (λ q. (q.0, some q.1)) e) | inr l ↦ inr (rest.0 l) ],
      λ h. elim h [
        | inl e ↦
            inl (ap₂ (λ a b. (a, b)) (ap (λ q. q.0) e) (some-injective c rw (ap (λ q. q.1) e)))
        | inr l ↦ inr (rest.1 l)
      ],
    )

module _ {lib : Library} {Connection Channel : Type 0} (environment : Environment lib Connection)
    (ready : Channel → Bool) (network : lib.World → P2pNetwork lib (Option Connection) Channel)
    (id : String) (w : lib.World) where
  abbrev asked : Assoc Connection
  asked = connected_peers (network w).peer_rws

  abbrev contacts : List Contact
  contacts = (environment id asked w).0

  -- What a request gives at a table that is given.
  gives :
      (p : P2pNetwork lib (Option Connection) Channel)
      → id ≢ ""
      → p.peer_rws ≢ []
      → request_transaction environment p id w ≡ (
        first_result (environment id (connected_peers p.peer_rws) w).0,
        (environment id (connected_peers p.peer_rws) w).1,
      )
  unfolding request_transaction get_all_peer_rws
  gives p named some_peer = elim (List-cases p.peer_rws) [
    | inl nobody ↦ absurd (some_peer nobody)
    | inr (peer, peers, e) ↦ ground (arith, str_eq_ne id "" named, e)
  ]

  -- Without an ID or without peers a request gives no transaction.
  refuses :
      (p : P2pNetwork lib (Option Connection) Channel) (tx : Transaction)
      → (request_transaction environment p id w).0 ≡ ok tx
      → (id ≢ "") × (p.peer_rws ≢ [])
  unfolding request_transaction get_all_peer_rws
  refuses p tx e =
      (λ unnamed. ground (arith, e, eq_iff id "", unnamed), λ nobody. ground (arith, e, nobody))

  -- A request of the blockchain asks the peers of the table whose connection is there. It is answered
  -- with a transaction exactly if the ID is not empty, the table is not, and the first goroutine that is
  -- not silent has that transaction as the answer of its peer: a peer that ends in an error before it
  -- keeps the answer from being taken.
  pub network_interface-Answers :
      (peers : Assoc Connection) × ((peer_id : String) (rw : Connection)
        → In (peer_id, rw) peers ↔ In (peer_id, some rw) (network w).peer_rws)
      × ((tx : Transaction) (w' : lib.World)
          → ((network_interface environment ready network).request_transaction id w
              ≡ (response tx, w'))
            ↔ ((id ≢ "")
                × ((network w).peer_rws ≢ [])
                × ((environment id peers w).1 ≡ w')
                × Answers (environment id peers w).0 tx))
  unfolding network_interface
  network_interface-Answers = (
    asked,
    connected_peers-In (network w).peer_rws,
    λ tx w'. (
      λ replied.
          let is_ok : (request_transaction environment (network w) id w).0 ≡ ok tx =
            response_of _ tx (ap (λ r. r.0) replied) in
          let (named, some_peer) = refuses (network w) tx is_ok in
          let e = gives (network w) named some_peer in
          (
            named,
            some_peer,
            sym (ap (λ r. r.1) e) ∙ ap (λ r. r.1) replied,
            first_result-Answers contacts tx (sym (ap (λ r. r.0) e) ∙ is_ok),
          ),
      λ (named, some_peer, world, (silent, later, peer_id, splits, all)).
          let first : first_result contacts ≡ ok tx =
            ap first_result splits ∙ Answers-first_result silent later peer_id tx all in
          ap (λ r. (as_reply r.0, r.1)) (gives (network w) named some_peer)
          ∙ ap₂ (λ r v. (as_reply r, v)) first world,
    ),
  )
