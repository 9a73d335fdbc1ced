-- ===== src/Main/Peers.antt =====
-- The nodes that a node is to be connected to: those of the loop of `main` in app/cmd/node/node.go, as
-- `Start` of app/internal/p2pnetwork/p2pnetwork.go parses them.
use Prim.Native.String.{◌++◌}
use mathlib.Core.Option.{some-injective}
use go_blockchain_demo.Prelude.{
  Option, Option-cases, ℕ, String, ◌≡◌, ◌≢◌, ◌↔◌, inl, inr, refl, sym, ap, subst, ◌∙◌, List, [],
  ◌∷◌, some, arith, In, ◌==◌, Bool-cases, true, false,
}
use go_blockchain_demo.Records.{Node}
use go_blockchain_demo.Library.{Library}
use go_blockchain_demo.Peer.{Servers, parse_nodes}
use go_blockchain_demo.Main.{enode_url, enode_nodes}

-- The URL of a node of the configuration that is not the one with the index.
abbrev pub IsOther : ℕ → List Node → String → Type 0
IsOther index nodes url =
    (node : Node) × In node nodes × (node.index ≢ index) × (enode_url node ≡ url)

own_left_out :
    (index : ℕ) (node : Node) (nodes : List Node)
    → node.index == index ≡ true
    → enode_nodes index (node ∷ nodes) ≡ enode_nodes index nodes
unfolding enode_nodes
own_left_out index node nodes own = ground (arith, own)

other_listed :
    (index : ℕ) (node : Node) (nodes : List Node)
    → node.index == index ≡ false
    → enode_nodes index (node ∷ nodes) ≡ enode_url node ∷ enode_nodes index nodes
unfolding enode_nodes
other_listed index node nodes other = ground (arith, other)

enode_nodes-IsOther :
    (index : ℕ) (nodes : List Node) (url : String)
    → In url (enode_nodes index nodes) ↔ IsOther index nodes url
unfolding enode_nodes
enode_nodes-IsOther index [] url = (λ h. absurd h, λ h. absurd h.1)
enode_nodes-IsOther index (node ∷ nodes) url =
    let rest = enode_nodes-IsOther index nodes url in
    let later : IsOther index nodes url → IsOther index (node ∷ nodes) url =
      λ h. (h.0, inr h.1, h.2, h.3) in
    elim (Bool-cases (node.index == index)) [
      | inl own ↦ (
        λ h. later (rest.0 (subst (In url) (own_left_out index node nodes own) h)),
        λ (other, listed, differs, has_url). elim listed [
          | inl e ↦ absurd (differs (ap (λ n. n.index) (sym e) ∙ ground (arith, own)))
          | inr l ↦
              subst (In url) (sym (own_left_out index node nodes own))
                (rest.1 (other, l, differs, has_url))
        ],
      )
      | inr other ↦ (
        λ h. elim (subst (In url) (other_listed index node nodes other) h) [
          | inl e ↦ (node, inl refl, (λ same. ground (arith, other, same)), e)
          | inr l ↦ later (rest.0 l)
        ],
        λ (found, listed, differs, has_url).
            subst (In url) (sym (other_listed index node nodes other)) (elim listed [
              | inl e ↦ inl (ap enode_url e ∙ has_url)
              | inr l ↦ inr (rest.1 (found, l, differs, has_url))
            ]),
      )
    ]

is_missing : {A : Type 0} (a : A) → Option.none ≢ some a
is_missing a e = cc

module _ {lib : Library} {Enode : Type 0} (servers : Servers lib Enode) where
  -- A node that the URL of another node of the configuration is parsed to.
  abbrev pub IsPeer : ℕ → List Node → Enode → Type 0
  IsPeer index nodes enode =
      (node : Node) × In node nodes
      × (node.index ≢ index)
      × (servers.parse_v4 ("enode://" ++ (node.public_key ++ ("@" ++ node.url))) ≡ some enode)

  parse_nodes-In :
      (urls : List String) (enode : Enode)
      → In enode (parse_nodes servers urls)
        ↔ ((url : String) × In url urls × (servers.parse_v4 url ≡ some enode))
  unfolding parse_nodes
  parse_nodes-In [] enode = (λ h. absurd h, λ h. absurd h.1)
  parse_nodes-In (url ∷ urls) enode =
      let rest = parse_nodes-In urls enode in
      elim (Option-cases (servers.parse_v4 url)) [
        | inl unparsed ↦
            let same : parse_nodes servers (url ∷ urls) ≡ parse_nodes servers urls =
              ground (arith, unparsed) in
            (
              λ h.
                  let (u, listed, gives) = rest.0 (subst (In enode) same h) in
                  (u, inr listed, gives),
              λ (u, listed, gives). elim listed [
                | inl e ↦ absurd (is_missing enode (sym unparsed ∙ ap servers.parse_v4 e ∙ gives))
                | inr l ↦ subst (In enode) (sym same) (rest.1 (u, l, gives))
              ],
            )
        | inr (first, parsed) ↦
            let same : parse_nodes servers (url ∷ urls) ≡ first ∷ parse_nodes servers urls =
              ground (arith, parsed) in
            (
              λ h. elim (subst (In enode) same h) [
                | inl e ↦ (url, inl refl, parsed ∙ ap some e)
                | inr l ↦ let (u, listed, gives) = rest.0 l in (u, inr listed, gives)
              ],
              λ (u, listed, gives). subst (In enode) (sym same) (elim listed [
                | inl e ↦
                    inl (some-injective first enode (sym parsed ∙ ap servers.parse_v4 e ∙ gives))
                | inr l ↦ inr (rest.1 (u, l, gives))
              ]),
            )
      ]

  pub parse_nodes-IsPeer :
      (index : ℕ) (nodes : List Node) (enode : Enode)
      → In enode (parse_nodes servers (enode_nodes index nodes)) ↔ IsPeer index nodes enode
  unfolding enode_url
  parse_nodes-IsPeer index nodes enode =
      let parsed = parse_nodes-In (enode_nodes index nodes) enode in
      (
        λ h.
            let (url, listed, gives) = parsed.0 h in
            let (node, among, differs, is_url) = (enode_nodes-IsOther index nodes url).0 listed in
            (node, among, differs, ap servers.parse_v4 is_url ∙ gives),
        λ (node, among, differs, gives). parsed.1 (
          enode_url node,
          (enode_nodes-IsOther index nodes (enode_url node)).1 (node, among, differs, refl),
          gives,
        ),
      )
