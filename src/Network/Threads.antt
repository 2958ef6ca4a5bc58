-- ===== src/Network/Threads.antt =====
-- The rounds of `acceptThread` and `workerThread` in network.cpp, with `recvIO`, `sendIO` and
-- `sended` of session.cpp. What the sockets answer is an argument.
use chatting_server_single.Common.{
  ℕ, ◌+◌, ◌-◌, ◌^◌, ◌%◌, List, [], ◌∷◌, ◌++◌, Option, none, some, ◌>>=◌, ◌==◌, if◌then◌else◌, u32,
}
use chatting_server_single.RingBuffer.{RingBuffer}
use chatting_server_single.Serializer.Memory.{Serializer}
use chatting_server_single.Session.Receiving.{Delivery, Inbox, receive_packets}
use chatting_server_single.Session.{
  Session, recved, increment_io, init, cancel_io_regist, has_cancel_io_flag, collect_send_packet,
}
use chatting_server_single.Network.{
  Network, at_slot, release, make_session_id, request_check, send_event, disconnect_event,
  not_define,
}

-- What `WSARecv` and `WSASend` return: done or pending, reset by the peer, or another error.
pub data Outcome : Type 0 where
  pending : Outcome
  reset : Outcome
  failed : Outcome

unfoldable pub after_error : ℕ → Network → Network
after_error i net = release i (at_slot i cancel_io_regist net)

unfoldable pub recv_io : Outcome → ℕ → Network → Network
recv_io outcome i net = if has_cancel_io_flag (net.sessions i) then net else elim outcome [
  | pending ↦ at_slot i increment_io net
  | reset ↦ after_error i (at_slot i increment_io net)
  | failed ↦ after_error i (at_slot i increment_io net)
]

-- The first `n` packets of the queue go to the ring of sent ones.
abbrev take_packets : ℕ → List ℕ → List ℕ × List ℕ
take_packets n [] = ([], [])
take_packets n (a ∷ more) =
    let (taken, left) = take_packets (n - 1) more in
    if n == 0 then ([], a ∷ more) else (a ∷ taken, left)

abbrev set_send_flag : ℕ → Session → Session
set_send_flag f s = record s { send_flag = f }

abbrev hand_over : Session → Session
hand_over s =
    let (taken, left) = take_packets 100 s.send_buffer in
    record s { send_flag = 1; send_buffer = left; sended_buffer = s.sended_buffer ++ taken }

unfoldable pub send_all : Outcome → ℕ → Network → Network
send_all outcome i net = elim outcome [
  | pending ↦ net
  | reset ↦ after_error i net
  | failed ↦ after_error i (at_slot i (set_send_flag 0) net)
]

-- `send_flag` is set while a transmission is on its way.
unfoldable pub send_io : Outcome → ℕ → Network → Network
send_io outcome i net =
    if has_cancel_io_flag (net.sessions i)
    then net
    else if (net.sessions i).send_flag == 1
    then net
    else elim (net.sessions i).send_buffer [
      | [] ↦ at_slot i (set_send_flag 0) net
      | _ ∷ _ ↦ send_all outcome i (at_slot i (λ s. increment_io (hand_over s)) net)
    ]

-- Packets whose transmission is done, as many as `transfer` bytes cover, and those left; `none`
-- when the ring runs out of them.
unfoldable pub sended : (ℕ → ℕ) → ℕ → List ℕ → Option (List ℕ × List ℕ)
sended size_of transfer [] = if transfer == 0 then some ([], []) else none
sended size_of transfer (a ∷ more) =
    let rest = sended size_of (u32 (transfer + 2 ^ 32 - size_of a)) more in
    if transfer == 0 then some ([], a ∷ more) else rest >>= (λ (done, left). some (a ∷ done, left))

-- One connection accepted: the slot on top of the stack, if there is one.
unfoldable pub accept_one : Outcome → ℕ → ℕ → ℕ → Network → Network
accept_one outcome socket port ip net = elim net.index_stack [
  | [] ↦ net
  | i ∷ is ↦ release i (
      recv_io outcome i (
        let id = make_session_id net.session_count i in
        record (at_slot i (init id socket port ip) net) {
          index_stack = is;
          session_count = u32 (net.session_count + 1);
          connected = net.connected ++ id ∷ [];
        }))
]

-- A packet that a completion carries, queued and sent, or given up.
unfoldable pub collected : Outcome → ℕ → ℕ → Network → Network
collected outcome i address net =
    let (s, ok) = collect_send_packet address (net.sessions i) in
    if ok
    then send_io outcome i (at_slot i (λ _. s) net)
    else record net { dropped = net.dropped ++ address ∷ [] }

-- A completion with no bytes: a request that was posted, or a connection that was closed.
unfoldable pub requested : Outcome → ℕ → ℕ → Network → Network
requested outcome i overlapped net = release i (elim (request_check overlapped) [
  | send_event ↦ collected outcome i (overlapped % 2 ^ 60) net
  | disconnect_event ↦ net
  | not_define ↦ net
])

-- The completion of a transmission of at least one byte.
unfoldable pub transmitted : (ℕ → ℕ) → Outcome → ℕ → ℕ → Network → Option Network
transmitted size_of outcome i transfer net =
    sended size_of transfer (net.sessions i).sended_buffer >>= λ (done, left). some (
      release i (
        let net' = record (at_slot i (λ s. record s { sended_buffer = left; send_flag = 0 }) net) {
          dropped = net.dropped ++ done;
        } in
        elim (net'.sessions i).send_buffer [ [] ↦ net' | _ ∷ _ ↦ send_io outcome i net' ]))

abbrev pub set_recv_buffer : RingBuffer → Session → Session
set_recv_buffer r s = record s { recv_buffer = r }

-- The calls of `OnRecv`, each with the number of the session. It is a virtual function, which works
-- on the state of a derived class and on the network. A packet with a wrong checksum has the session
-- cancelled before.
unfoldable pub handed {ℓ} :
    {S : Type ℓ}
    → (ℕ → Serializer → S × Network → Option (S × Network))
    → ℕ
    → List Delivery
    → S × Network
    → Option (S × Network)
handed on_recv i [] state = some state
handed on_recv i (d ∷ ds) (s, net) =
    on_recv (net.sessions i).id d.packet
      (s, if d.accepted then net else at_slot i cancel_io_regist net)
    >>= handed on_recv i ds

abbrev pub received_by {ℓ} :
    {S : Type ℓ}
    → (ℕ → Serializer → S × Network → Option (S × Network))
    → Outcome
    → ℕ
    → Inbox
    → S × Network
    → Option ((S × Network) × List Delivery)
received_by on_recv outcome i inbox (s, net) =
    handed on_recv i inbox.deliveries (s, at_slot i (set_recv_buffer inbox.ring) net) >>= λ (s', m).
    some ((s', release i (recv_io outcome i m)), inbox.deliveries)

-- The completion of a reception of at least one byte, and the calls of `OnRecv`, none of which reads
-- the ring. A reception that is not taken over keeps its reference.
unfoldable pub received {ℓ} :
    {S : Type ℓ}
    → (ℕ → Serializer → S × Network → Option (S × Network))
    → ℕ
    → List Serializer
    → Outcome
    → ℕ
    → ℕ
    → S × Network
    → Option ((S × Network) × List Delivery)
received on_recv static_key pool outcome i transfer (s, net) =
    let (r, ok) = recved transfer (net.sessions i).recv_buffer in
    if ok
    then receive_packets static_key pool r
      >>= (λ inbox. received_by on_recv outcome i inbox (s, net))
    else some ((s, net), [])
