-- ===== src/Peer/Cleaning.antt =====
-- The table of connections of app/internal/p2pnetwork/p2pnetwork.go as a map.
use go_blockchain_demo.Prelude.{
  String, ◌≡◌, none, some, List, [], ◌∷◌, arith, str_eq, eq_iff, if◌then◌else◌, lookup, insert,
  erase, lookup-insert, lookup-erase,
}
use go_blockchain_demo.Library.{Library}
use go_blockchain_demo.Peer.Table.{
  P2pNetwork, contains_text, set_peer_rw, remove_peer_rw, get_all_peer_rws, retain_active,
  clean_invalid_peer_rws,
}

lookup-retain_active :
    {V : Type 0} (k : String) (active : List String) (m : List (String × V))
    → lookup k (retain_active active m) ≡ (if contains_text k active then lookup k m else none)
unfolding lookup retain_active
lookup-retain_active k active [] = ground arith
lookup-retain_active k active ((j, v) ∷ m) =
    ground (arith, eq_iff j k, lookup-retain_active k active m)

module _ {lib : Library} {Connection Channel : Type 0} where
  -- A connection is found after one is set, one is removed, and the table is cleaned: the last one
  -- that was set under its peer, unless that peer was removed or is not active.
  pub lookup-clean_invalid_peer_rws :
      (active : List String) (gone peer k : String) (rw' : Connection)
      (p : P2pNetwork lib Connection Channel)
      → lookup k (
          get_all_peer_rws
            (clean_invalid_peer_rws active (remove_peer_rw gone (set_peer_rw peer rw' p))))
        ≡ (if contains_text k active
            then (if str_eq gone k
                then none
                else if str_eq peer k
                then some rw'
                else lookup k (get_all_peer_rws p))
            else none)
  unfolding get_all_peer_rws clean_invalid_peer_rws remove_peer_rw set_peer_rw
  lookup-clean_invalid_peer_rws active gone peer k rw' p = ground (
    arith,
    lookup-retain_active k active (erase gone (insert peer rw' p.peer_rws)),
    lookup-erase gone k (insert peer rw' p.peer_rws),
    lookup-insert peer k rw' p.peer_rws,
  )
