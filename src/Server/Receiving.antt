-- ===== src/Server/Receiving.antt =====
-- What `OnRecv` makes of the packets of a reception, with the calls of `disconnectReq`.
pub mod Calls
pub mod Reception
mod Tests
use chatting_server_single.Common.{
  ℕ, ◌+◌, ◌^◌, ◌<◌, ◌≡◌, refl, ap, ◌∙◌, arith, Bool, true, List, [], ◌∷◌, ◌++◌, Option, some, ◌>>=◌,
  map, none, length, sym, ◌==◌, ◌≢◌, inl, inr, Bool-cases, append-nil, length-map,
}
use chatting_server_single.RingBuffer.{RingBuffer}
use chatting_server_single.RingBuffer as Ring
use chatting_server_single.RingBuffer.Invariant as RingInvariant
use chatting_server_single.RingBuffer.Rear.{scattered}
use chatting_server_single.Serializer.Memory.{Serializer}
use chatting_server_single.Serializer.Invariant.{IsValid}
use chatting_server_single.Serializer.Contents.{contents}
use chatting_server_single.Serializer.Scalars.{field_bytes}
use chatting_server_single.Serializer.Sealing.{signed16}
use chatting_server_single.Session.{Session, cancel_io_regist, increment_io, decrement_io}
use chatting_server_single.Session.Receiving.{Delivery}
use chatting_server_single.Session.Receiving.Opening.{observed}
use chatting_server_single.Session.Receiving.Stream.{stream_bytes, AllReady, IsPart, AllSound}
use chatting_server_single.Session.Receiving.Sealed.{Message, sealed_frame, AllTexts}
use chatting_server_single.Network.{Network, at_slot, release, get_index, disconnect_req}
use chatting_server_single.Network.Lookup.{Alive, at_slot_here, found_lem, release-kept, returned}
use chatting_server_single.Network.Reception.{received_lem, recv_io-kept}
use chatting_server_single.Network.Threads.{pending, handed, received, set_recv_buffer}
use chatting_server_single.Content.Jobs.{Job, move_user}
use chatting_server_single.Server.{Server, on_recv}
use chatting_server_single.Server.Parsing.{on_recv-move_lem, on_recv-unknown_lem}

unfoldable pub disconnect_each : List ℕ → Network → Network
disconnect_each [] net = net
disconnect_each (id ∷ ids) net = disconnect_each ids (disconnect_req id net)

-- `OnRecv` with the calls of `disconnectReq` that it makes. `fresh` is the job that the pool hands
-- out, by the jobs that wait.
unfoldable pub on_recv_all :
    (List Job → Job) → ℕ → Serializer → Server × Network → Option (Server × Network)
unfolding disconnect_each
on_recv_all fresh id p (srv, net) = do
  srv' ← on_recv (fresh srv.job_queue) id p (record srv { disconnected = [] })
  some (
    record srv' { disconnected = srv.disconnected ++ srv'.disconnected },
    disconnect_each srv'.disconnected net,
  )

-- A request of a client, and the random key that it is sealed with.
pub record Request : Type 0 where
  pub random_key : ℕ
  pub account : ℕ
  pub x : ℕ
  pub y : ℕ

abbrev pub text_of : Request → List ℕ
text_of q = field_bytes ((2, 3) ∷ (8, q.account) ∷ (2, q.x) ∷ (2, q.y) ∷ [])

abbrev pub message_of : Request → Message
message_of q = record { random_key = q.random_key; text = text_of q }

abbrev pub AllInRange : List Request → Type 0
AllInRange [] = Unit
AllInRange (q ∷ qs) = (q.account < 2 ^ 64) × (q.x < 2 ^ 16) × (q.y < 2 ^ 16) × AllInRange qs

abbrev pub job_of : Job → ℕ → Request → Job
job_of fresh id q = record fresh {
  id = move_user;
  target_id = id;
  account_no = q.account;
  sector_x = signed16 q.x;
  sector_y = signed16 q.y;
}

-- The queue with one job more for each request.
abbrev pub queued : (List Job → Job) → ℕ → List Request → List Job → List Job
queued fresh id [] jobs = jobs
queued fresh id (q ∷ qs) jobs = queued fresh id qs (jobs ++ job_of (fresh jobs) id q ∷ [])
