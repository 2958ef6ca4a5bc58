-- ===== src/Server/Receiving/Reception.antt =====
-- A reception that is full of requests to move, from the bytes in the ring to the queue of jobs.
use chatting_server_single.Common.{
  ℕ, ◌+◌, ◌<◌, ◌≡◌, refl, ap, ◌∙◌, arith, true, List, [], ◌∷◌, ◌++◌, some, map, length, sym,
  length-map,
}
use chatting_server_single.RingBuffer.{RingBuffer}
use chatting_server_single.RingBuffer as Ring
use chatting_server_single.RingBuffer.Invariant as RingInvariant
use chatting_server_single.RingBuffer.Rear.{scattered}
use chatting_server_single.Serializer.Memory.{Serializer}
use chatting_server_single.Serializer.Scalars.{field_bytes}
use chatting_server_single.Session.{Session}
use chatting_server_single.Session.Receiving.{Delivery}
use chatting_server_single.Session.Receiving.Stream.{stream_bytes, AllReady, IsPart}
use chatting_server_single.Session.Receiving.Sealed.{Message, sealed_frame, AllTexts}
use chatting_server_single.Network.{Network, at_slot}
use chatting_server_single.Network.Lookup.{Alive, at_slot_here}
use chatting_server_single.Network.Reception.{received_lem, recv_io-kept}
use chatting_server_single.Network.Threads.{pending, received, set_recv_buffer}
use chatting_server_single.Content.Jobs.{Job}
use chatting_server_single.Server.{Server}
use chatting_server_single.Server.Receiving.{on_recv_all, Request, message_of, AllInRange, queued}
use chatting_server_single.Server.Receiving.Calls.{handed-moves, map-map}

-- A message of a type that the server does not know.
abbrev pub stranger : ℕ → ℕ → List ℕ → Message
stranger random_key type more = record {
  random_key = random_key;
  text = field_bytes ((2, type) ∷ []) ++ more;
}

abbrev pub with_stranger : List Request → ℕ → ℕ → List ℕ → List Message
with_stranger qs random_key type more = map message_of qs ++ stranger random_key type more ∷ []

-- Requests to move arrive for a session that is alive and not cancelled: their bytes are received
-- behind what its valid ring holds, leave room in it, and complete the packets that the requests
-- were sealed to with the static key, and perhaps the beginning of a further one; the pool has more
-- ready serializers than there are packets. Then one job for each request stands in the queue behind
-- those that wait, in the order of the requests, for the number of the session; the next reception
-- has the reference of this one; and the network is as it was but for this ring, which holds the
-- beginning.
pub moves_lem :
    (fresh : List Job → Job) (static_key n i : ℕ) (qs : List Request) (r : RingBuffer)
    (bytes rest : List ℕ) (pool : List Serializer) (srv : Server) (net : Network)
    → Alive (net.sessions i)
    → (net.sessions i).cancel_io_flag ≡ 0
    → (net.sessions i).recv_buffer ≡ scattered r bytes
    → RingInvariant.IsValid r
    → 0 < length bytes
    → length bytes + Ring.size r < r.max_size
    → RingInvariant.contents r ++ bytes
      ≡ stream_bytes (map (λ q. sealed_frame static_key (message_of q)) qs) ++ rest
    → AllTexts n (map message_of qs)
    → AllInRange qs
    → IsPart rest
    → AllReady n pool
    → length qs < length pool
    → (r' : RingBuffer) × (deliveries : List Delivery) × (received
          (on_recv_all fresh)
          static_key
          pool
          pending
          i
          (length bytes)
          (srv, net)
        ≡ some (
          (
            record srv { job_queue = queued fresh (net.sessions i).id qs srv.job_queue },
            at_slot i (set_recv_buffer r') net,
          ),
          deliveries,
        ))
      × (RingInvariant.contents r' ≡ rest)
      × RingInvariant.IsValid r'
unfolding Alive
moves_lem fresh static_key n i qs r bytes rest pool srv net alive open_here ring v some_bytes room
      held texts fit part ready many =
    let (r', deliveries, ran, seen, sound, over, w) =
      received_lem (on_recv_all fresh) pending static_key n i (map message_of qs) r bytes rest pool
        srv net ring v some_bytes room
        (held
          ∙ ap (λ l. stream_bytes l ++ rest)
              (sym (map-map (sealed_frame static_key) message_of qs)))
        texts part ready (omega (arith, many, length-map message_of qs)) in
    let net' = at_slot i (set_recv_buffer r') net in
    let here = at_slot_here i (set_recv_buffer r') net in
    let calls =
      handed-moves fresh i net' qs deliveries srv
        (seen ∙ map-map (λ m. (true, m.text)) message_of qs) sound fit in
    (
      r',
      deliveries,
      ran
          ∙ rw
              (
                calls,
                recv_io-kept i net' (omega (arith, alive, ap Session.io_count here))
                    (ap Session.cancel_io_flag here ∙ open_here),
                ap Session.id here,
              )
              refl,
      over,
      w,
    )
