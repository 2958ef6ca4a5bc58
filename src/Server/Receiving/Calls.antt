-- ===== src/Server/Receiving/Calls.antt =====
-- The calls of `OnRecv` for requests to move, and for a packet of an unknown type.
use chatting_server_single.Common.{
  ℕ, ◌+◌, ◌^◌, ◌<◌, ◌≡◌, refl, ap, ◌∙◌, arith, Bool, true, List, [], ◌∷◌, ◌++◌, Option, some, map,
  none, sym, ◌==◌, ◌≢◌, inl, inr, Bool-cases, append-nil,
}
use chatting_server_single.Serializer.Invariant.{IsValid}
use chatting_server_single.Serializer.Contents.{contents}
use chatting_server_single.Serializer.Scalars.{field_bytes}
use chatting_server_single.Session.{Session, cancel_io_regist, increment_io, decrement_io}
use chatting_server_single.Session.Receiving.{Delivery}
use chatting_server_single.Session.Receiving.Opening.{observed}
use chatting_server_single.Session.Receiving.Stream.{AllSound}
use chatting_server_single.Network.{Network, at_slot, release, get_index, disconnect_req}
use chatting_server_single.Network.Lookup.{Alive, at_slot_here, found_lem, release-kept, returned}
use chatting_server_single.Network.Threads.{handed}
use chatting_server_single.Content.Jobs.{Job}
use chatting_server_single.Server.{Server}
use chatting_server_single.Server.Parsing.{on_recv-move_lem, on_recv-unknown_lem}
use chatting_server_single.Server.Receiving.{
  disconnect_each, on_recv_all, Request, text_of, AllInRange, job_of, queued,
}

list_parts :
    (a b : Bool × List ℕ) (xs ys : List (Bool × List ℕ))
    → a ∷ xs ≡ b ∷ ys
    → (a.0 ≡ b.0) × (a.1 ≡ b.1) × (xs ≡ ys)
list_parts a b xs ys h = ground arith

pub map-map {ℓ κ μ} :
    {A : Type ℓ} {B : Type κ} {C : Type μ} (g : B → C) (f : A → B) (xs : List A)
    → map g (map f xs) ≡ map (λ x. g (f x)) xs
map-map g f [] = refl
map-map g f (x ∷ xs) = ap (λ l. g (f x) ∷ l) (map-map g f xs)

module _ (fresh : List Job → Job) (i : ℕ) (net : Network) (q : Request) (d : Delivery)
    (ds : List Delivery) (srv : Server) (good : d.accepted ≡ true)
    (text : contents d.packet ≡ text_of q) (sound : IsValid d.packet)
    (fit : (q.account < 2 ^ 64) × (q.x < 2 ^ 16) × (q.y < 2 ^ 16)) where
  abbrev taken : Server
  taken = record srv {
    job_queue = srv.job_queue ++ job_of (fresh srv.job_queue) (net.sessions i).id q ∷ [];
  }

  handed-move :
      handed (on_recv_all fresh) i (d ∷ ds) (srv, net)
      ≡ handed (on_recv_all fresh) i ds (taken, net)
  unfolding handed on_recv_all disconnect_each
  handed-move =
      rw
        (
          good,
          on_recv-move_lem (fresh srv.job_queue) (net.sessions i).id q.account q.x q.y [] d.packet
              (record srv { disconnected = [] }) sound fit.0 fit.1 fit.2
              (text ∙ sym (append-nil (text_of q))),
          append-nil srv.disconnected,
        )
        refl

pub handed-moves :
    (fresh : List Job → Job) (i : ℕ) (net : Network) (qs : List Request) (ds : List Delivery)
    (srv : Server)
    → map observed ds ≡ map (λ q. (true, text_of q)) qs
    → AllSound ds
    → AllInRange qs
    → handed (on_recv_all fresh) i ds (srv, net)
      ≡ some (record srv { job_queue = queued fresh (net.sessions i).id qs srv.job_queue }, net)
unfolding handed on_recv_all disconnect_each
handed-moves fresh i net [] [] srv seen sound fit = refl
handed-moves fresh i net [] (d ∷ ds) srv seen sound fit = absurd (ground arith)
handed-moves fresh i net (q ∷ qs) [] srv seen sound fit = absurd (ground arith)
handed-moves fresh i net (q ∷ qs) (d ∷ ds) srv seen sound (a, x, y, fit) =
    let (good, text, more) =
      list_parts (observed d) (true, text_of q) (map observed ds) (map (λ q. (true, text_of q)) qs)
        seen in
    handed-move fresh i net q d ds srv good text sound.0 (a, x, y)
    ∙ handed-moves fresh i net qs ds (taken fresh i net q d ds srv good text sound.0 (a, x, y)) more
        sound.1 fit

cancelled_after : Network × Option ℕ → Network
cancelled_after r = elim r.1 [ none ↦ r.0 | some k ↦ release k (at_slot k cancel_io_regist r.0) ]

disconnect_req-found :
    (i id : ℕ) (net : Network)
    → get_index id ≡ i
    → (net.sessions i).id ≡ id
    → Alive (net.sessions i)
    → disconnect_req id net ≡ release i (at_slot i cancel_io_regist (at_slot i increment_io net))
unfolding disconnect_req Alive cancelled_after
disconnect_req-found i id net index own alive =
    ap cancelled_after (
      found_lem id net (omega (arith, alive, ap (λ k. (net.sessions k).io_count) index))
        (ap (λ k. (net.sessions k).id) index ∙ own))
    ∙ ap (λ k. release k (at_slot k cancel_io_regist (at_slot k increment_io net))) index

-- A session that is alive under its number is cancelled, and keeps its references.
disconnect_req-own :
    (i id : ℕ) (net : Network)
    → get_index id ≡ i
    → (net.sessions i).id ≡ id
    → Alive (net.sessions i)
    → disconnect_req id net ≡ at_slot i cancel_io_regist net
unfolding Alive increment_io decrement_io cancel_io_regist
disconnect_req-own i id net index own alive =
    disconnect_req-found i id net index own alive
    ∙ release-kept i (at_slot i cancel_io_regist (at_slot i increment_io net))
        (omega (arith, count, alive)) (omega (arith, count, alive))
    ∙ same
  where
    count :
        ((at_slot i cancel_io_regist (at_slot i increment_io net)).sessions i).io_count
        ≡ (net.sessions i).io_count + 1
    count =
        ap Session.io_count (at_slot_here i cancel_io_regist (at_slot i increment_io net))
        ∙ ap Session.io_count (at_slot_here i increment_io net)
        ∙ omega (arith, alive)

    same :
        at_slot i decrement_io (at_slot i cancel_io_regist (at_slot i increment_io net))
        ≡ at_slot i cancel_io_regist net
    same =
        (λ t. record net { sessions = λ j. swapped j t })
        ∙ ap (λ m. at_slot i cancel_io_regist m) (returned i net (omega (arith, alive)))
      where
        swapped :
            (j : ℕ)
            → (at_slot i decrement_io
                  (at_slot i cancel_io_regist (at_slot i increment_io net))).sessions
                j
              ≡ (at_slot i cancel_io_regist
                    (at_slot i decrement_io (at_slot i increment_io net))).sessions
                  j
        swapped j = elim (Bool-cases (j == i)) [ inl e ↦ rw e refl | inr e ↦ rw e refl ]

-- Behind some requests a packet of a type that the server does not know.
pub handed-stranger :
    (fresh : List Job → Job) (i type : ℕ) (more : List ℕ) (net : Network) (qs : List Request)
    (ds : List Delivery) (srv : Server)
    → map observed ds
      ≡ map (λ q. (true, text_of q)) qs ++ (true, field_bytes ((2, type) ∷ []) ++ more) ∷ []
    → AllSound ds
    → AllInRange qs
    → get_index (net.sessions i).id ≡ i
    → Alive (net.sessions i)
    → type < 2 ^ 16
    → type ≢ 1
    → type ≢ 3
    → type ≢ 5
    → handed (on_recv_all fresh) i ds (srv, net)
      ≡ some (
        record srv {
          job_queue = queued fresh (net.sessions i).id qs srv.job_queue;
          disconnected = srv.disconnected ++ (net.sessions i).id ∷ [];
        },
        at_slot i cancel_io_regist net,
      )
unfolding handed on_recv_all disconnect_each
handed-stranger fresh i type more net [] [] srv seen sound fit index alive small n1 n3 n5 =
    absurd (ground arith)
handed-stranger fresh i type more net [] (d ∷ []) srv seen sound fit index alive small n1 n3 n5 =
    let (good, text, _) =
      list_parts (observed d) (true, field_bytes ((2, type) ∷ []) ++ more) [] [] seen in
    rw
      (
        good,
        on_recv-unknown_lem (fresh srv.job_queue) (net.sessions i).id type more d.packet
            (record srv { disconnected = [] }) sound.0 small n1 n3 n5 text,
        disconnect_req-own i (net.sessions i).id net index refl alive,
      )
      refl
handed-stranger fresh i type more net [] (d ∷ e ∷ ds) srv seen sound fit index alive small n1 n3
      n5 =
    absurd (ground arith)
handed-stranger fresh i type more net (q ∷ qs) [] srv seen sound fit index alive small n1 n3 n5 =
    absurd (ground arith)
handed-stranger fresh i type more net (q ∷ qs) (d ∷ ds) srv seen sound (a, x, y, fit) index alive
      small n1 n3 n5 =
    let (good, text, others) =
      list_parts (observed d) (true, text_of q) (map observed ds)
        (map (λ q. (true, text_of q)) qs ++ (true, field_bytes ((2, type) ∷ []) ++ more) ∷ [])
        seen in
    handed-move fresh i net q d ds srv good text sound.0 (a, x, y)
    ∙ handed-stranger fresh i type more net qs ds
        (taken fresh i net q d ds srv good text sound.0 (a, x, y)) others sound.1 fit index alive
        small n1 n3 n5
