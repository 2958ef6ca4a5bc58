-- ===== src/Network.antt =====
-- lib/IOCP netServer/network.h and network.cpp: the slots of the sessions, their reference counts
-- and what is posted to the completion port. Every function here is a run without interruption.
-- Sockets, threads and counters of messages per second are left out.
pub mod Ids
pub mod Lookup
pub mod Threads
pub mod Lifetime
pub mod Reception
pub mod Slot
mod Tests
use chatting_server_single.Common.{
  ℕ, ◌+◌, ◌*◌, ◌-◌, ◌%◌, ◌^◌, bit_or, bit_and, Bool, true, false, not, List, [], ◌∷◌, ◌++◌, Option,
  none, some, ◌>>=◌, leb, ◌==◌, if◌then◌else◌, u32, u64, length,
}
use chatting_server_single.Serializer.Memory.{Serializer, inc_reference_counter}
use chatting_server_single.Serializer.Sealing.{set_header, encryption}
use chatting_server_single.Session.{
  Session, increment_io, decrement_io, init, cancel_io_regist, has_cancel_io_flag, buffer_clear,
}

-- A slot and what `lpOverlapped` carries: a tagged address of a packet.
pub record Completion : Type 0 where
  pub slot : ℕ
  pub overlapped : ℕ

-- `connected` and `disconnected` are the sessions for which `OnNewConnect` and `OnDisconnect` were
-- called, `dropped` the packets whose references the sessions gave up.
pub record Network : Type 0 where
  pub sessions : ℕ → Session
  pub index_stack : List ℕ
  pub session_count : ℕ
  pub max_session : ℕ
  pub posted : List Completion
  pub connected : List ℕ
  pub disconnected : List ℕ
  pub dropped : List ℕ

unfoldable pub make_session_id : ℕ → ℕ → ℕ
make_session_id count index = bit_or index (u64 (count * 2 ^ 48))

unfoldable pub get_index : ℕ → ℕ
get_index id = id % 2 ^ 16

abbrev pub at_slot : ℕ → (Session → Session) → Network → Network
at_slot i f net = record net {
  sessions = λ j. if j == i then f (net.sessions j) else net.sessions j;
}

-- The exchange of the count from 0 to the mark of a deleted session succeeds once.
unfoldable pub delete_session : ℕ → Network → Network
unfolding buffer_clear get_index
delete_session i net =
    if (net.sessions i).io_count == 0
    then record (at_slot i (λ s. record (buffer_clear s).0 { io_count = 2 ^ 31 }) net) {
      index_stack = get_index (net.sessions i).id ∷ net.index_stack;
      disconnected = net.disconnected ++ (net.sessions i).id ∷ [];
      dropped = net.dropped ++ (buffer_clear (net.sessions i)).1;
    }
    else net

-- `if (decrementIO() == 0) deleteSession(...)`.
unfoldable pub release : ℕ → Network → Network
release i net =
    if (decrement_io (net.sessions i)).io_count == 0
    then delete_session i (at_slot i decrement_io net)
    else at_slot i decrement_io net

-- The slot, with the reference that was just taken, or nothing and the reference given back.
unfoldable pub check_session : ℕ → ℕ → Network → Network × Option ℕ
check_session i id net =
    if leb (2 ^ 31) (net.sessions i).io_count
    then (release i net, none)
    else if not ((net.sessions i).id == id)
    then (release i net, none)
    else (net, some i)

unfoldable pub find_session : ℕ → Network → Network × Option ℕ
find_session id net = check_session (get_index id) id (at_slot (get_index id) increment_io net)

unfoldable pub disconnect_req : ℕ → Network → Network
unfolding find_session release cancel_io_regist
disconnect_req id net =
    let (net', found) = find_session id net in
    elim found [ none ↦ net' | some i ↦ release i (at_slot i cancel_io_regist net') ]

abbrev pub send_tag : ℕ
send_tag = 2 ^ 62

abbrev pub disconnect_tag : ℕ
disconnect_tag = 2 ^ 63

pub data ReqEvents : Type 0 where
  not_define : ReqEvents
  send_event : ReqEvents
  disconnect_event : ReqEvents

-- `reqFilter` keeps the four highest bits.
unfoldable pub request_check : ℕ → ReqEvents
request_check overlapped =
    let stamp = bit_and (15 * 2 ^ 60) overlapped in
    if stamp == send_tag
    then send_event
    else if stamp == disconnect_tag
    then disconnect_event
    else not_define

abbrev post_send : ℕ → ℕ → Network → Network
post_send i address net = record (at_slot i increment_io net) {
  posted = net.posted ++ record { slot = i; overlapped = bit_or address send_tag } ∷ [];
}

-- The packet at `address` sealed and posted for one session, with a reference for the completion.
unfoldable pub send_req : ℕ → ℕ → ℕ → ℕ → Network × Serializer → Option (Network × Serializer)
unfolding find_session release
send_req key static_key address id (net, packet) =
    let (net', found) = find_session id net in
    elim found [
      | none ↦ some (net', packet)
      | some i ↦ set_header key packet >>= encryption static_key >>= λ sealed.
          some (release i (post_send i address net'), (inc_reference_counter sealed 1).0)
    ]

-- A sealed packet posted for one session, if it is found.
unfoldable pub post_one : ℕ → ℕ → Network × Serializer → Network × Serializer
unfolding find_session release
post_one address id (net, packet) =
    let (net', found) = find_session id net in
    elim found [
      | none ↦ (net', packet)
      | some i ↦ (release i (post_send i address net'), (inc_reference_counter packet 1).0)
    ]

unfoldable pub post_all : ℕ → List ℕ → Network × Serializer → Network × Serializer
unfolding post_one
post_all address [] state = state
post_all address (id ∷ ids) state = post_all address ids (post_one address id state)

-- Sealed once, then posted for each session.
unfoldable pub send_req_all :
    ℕ → ℕ → ℕ → List ℕ → Network × Serializer → Option (Network × Serializer)
unfolding post_all
send_req_all key static_key address ids (net, packet) =
    set_header key packet >>= encryption static_key >>= λ sealed.
    some (post_all address ids (net, sealed))

-- `chattingServer::sendPacket` to several sessions: one `sendReq` for each, with a random key each.
unfoldable pub send_packet_all :
    (ℕ → ℕ) → ℕ → ℕ → List ℕ → Network × Serializer → Option (Network × Serializer)
unfolding send_req
send_packet_all key static_key address [] state = some state
send_packet_all key static_key address (id ∷ ids) state =
    send_req (key (length ids)) static_key address id state
    >>= send_packet_all key static_key address ids
