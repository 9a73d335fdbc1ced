-- ===== src/Peer/Request.antt =====
-- `RequestTransaction` of app/internal/p2pnetwork/p2pnetwork.go, and the network as the blockchain
-- sees it. Each peer is asked in a goroutine of its own; in which order these end is not known, so
-- the ends that come within the five seconds are a list.
use go_blockchain_demo.Prelude.{
  String, Option, none, some, List, [], ◌∷◌, Bool, Outcome, ok, err, panic, errorf, Assoc, str_eq,
  if◌then◌else◌,
}
use go_blockchain_demo.Records.{Transaction}
use go_blockchain_demo.Library.{Library, Reply, response, failed, P2pNetworkInterface}
use go_blockchain_demo.Peer.Table.{P2pNetwork, get_all_peer_rws, broadcast_transaction}

-- How `p2p.Send` in its goroutine comes back, within three seconds or not.
pub data Sending : Type 0 where
  sent : Sending
  send_error : String → Sending
  send_timeout : Sending

-- How `rw.ReadMsg` comes back: a message with another code than that of a response, a response, which
-- may not be a transaction, one at which `msg.Decode` panics, an error, or nothing within three seconds.
pub data Reading : Type 0 where
  other_code : Reading
  answer : Option Transaction → Reading
  decode_panic : Reading
  read_error : String → Reading
  read_timeout : Reading

-- What happened in the goroutine of one peer: the peer, and the two calls on its connection. These run
-- in goroutines of their own, and are taken not to panic: the `recover` does not reach there, and the
-- whole process would end.
pub data Contact : Type 0 where
  exchange : String → Sending → Reading → Contact

unfoldable pub read_answer : String → Reading → Option (Outcome Transaction)
read_answer peer_id other_code = none
read_answer peer_id (answer (some tx)) = some (ok tx)
read_answer peer_id (answer none) =
    some (err (errorf "lỗi khi giải mã transaction từ peer %s" peer_id))
read_answer peer_id decode_panic = some (err (errorf "panic khi xử lý peer %s" peer_id))
read_answer peer_id (read_error _) = some (err (errorf "lỗi khi đọc phản hồi từ peer %s" peer_id))
read_answer peer_id read_timeout = some (err (errorf "timeout khi đọc phản hồi từ peer %s" peer_id))

-- What the goroutine of a peer puts into one of the two channels, if it puts anything.
unfoldable pub peer_result : Contact → Option (Outcome Transaction)
unfolding read_answer
peer_result (exchange peer_id sent reading) = read_answer peer_id reading
peer_result (exchange peer_id (send_error text) reading) =
    if str_eq text "shutting down"
    then none
    else some (err (errorf "lỗi khi gửi yêu cầu tới peer %s" peer_id))
peer_result (exchange peer_id send_timeout reading) =
    some (err (errorf "timeout khi gửi yêu cầu tới peer %s" peer_id))

-- The `select` at the end: the first value in a channel, or the end of the five seconds.
unfoldable pub first_result : List Contact → Outcome Transaction
unfolding peer_result
first_result [] = err (errorf "timeout khi chờ phản hồi từ tất cả peers" "")
first_result (contact ∷ contacts) =
    let rest = first_result contacts in elim (peer_result contact) [ none ↦ rest | some r ↦ r ]

-- The connections that are not nil: the peers that a goroutine is started for.
unfoldable pub connected_peers :
    {Connection : Type 0} → Assoc (Option Connection) → Assoc Connection
connected_peers [] = []
connected_peers ((peer_id, none) ∷ peers) = connected_peers peers
connected_peers ((peer_id, some rw) ∷ peers) = (peer_id, rw) ∷ connected_peers peers

-- What the peers that are asked for a transaction do, in the order in which their goroutines end.
abbrev pub Environment : Library → Type 0 → Type 0
Environment lib Connection = String → Assoc Connection → lib.World → List Contact × lib.World

-- The goroutine in `GetTransactionByID` that hands the result to the waiting `select`: five seconds
-- are over before its ten.
unfoldable pub as_reply : Outcome Transaction → Reply
as_reply (ok tx) = response tx
as_reply (err _) = failed
as_reply panic = failed

module _ {lib : Library} {Connection Channel : Type 0} where
  -- `p.RequestTransaction(txID)`
  unfoldable pub request_transaction :
      Environment lib Connection
      → P2pNetwork lib (Option Connection) Channel
      → String
      → lib.World
      → Outcome Transaction × lib.World
  unfolding first_result connected_peers
  request_transaction environment p tx_id w =
      if str_eq tx_id ""
      then (err (errorf "transaction ID khng được để trống" ""), w)
      else elim (get_all_peer_rws p) [
        | [] ↦ (err (errorf "không có peer nào đang kết nối" ""), w)
        | peer ∷ peers ↦
            let (contacts, w') = environment tx_id (connected_peers (peer ∷ peers)) w in
            (first_result contacts, w')
      ]

  -- `*P2PNetwork` as a `P2PNetworkInterface`: `network` is what the pointer shows, `ready` which
  -- channels take a value at once.
  unfoldable pub network_interface :
      Environment lib Connection
      → (Channel → Bool)
      → (lib.World → P2pNetwork lib (Option Connection) Channel)
      → P2pNetworkInterface lib.World
  unfolding request_transaction as_reply
  network_interface environment ready network = record {
    broadcast_transaction = λ tx w. ((broadcast_transaction ready (network w) tx).1, w);
    request_transaction = λ tx_id w.
        let (r, w') = request_transaction environment (network w) tx_id w in (as_reply r, w');
  }
