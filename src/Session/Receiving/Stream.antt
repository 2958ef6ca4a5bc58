-- ===== src/Session/Receiving/Stream.antt =====
-- The loop over the packets of a stream of frames, of which the last may be there in part.
use chatting_server_single.Common.{
  ℕ, ◌+◌, ◌*◌, ◌/◌, ◌^◌, ◌≤◌, ◌<◌, ◌≡◌, refl, sym, ap, ap₂, ◌∙◌, arith, ◌⊎◌, inl, inr, Bool, true,
  List, [], ◌∷◌, ◌++◌, map, length-map, append_assoc, some, length, length-append, pos,
}
use chatting_server_single.RingBuffer.{RingBuffer}
use chatting_server_single.RingBuffer as Ring
use chatting_server_single.RingBuffer.Invariant as RingInvariant
use chatting_server_single.RingBuffer.Push as RingPush
use chatting_server_single.RingBuffer.Pop.{pop_refines}
use chatting_server_single.Serializer.Memory.{Serializer}
use chatting_server_single.Serializer.Invariant.{IsValid}
use chatting_server_single.Serializer.Cipher.{decrypt_bytes, length-decrypt_bytes}
use chatting_server_single.Serializer.Sealing.{header_bytes}
use chatting_server_single.Session.{recved_packet}
use chatting_server_single.Session.Framing.{recved_packet_lem}
use chatting_server_single.Session.Refused.{partial_packet_lem}
use chatting_server_single.Session.Receiving.{
  Delivery, Inbox, prepared, open_packet, receive_packets,
}
use chatting_server_single.Session.Receiving.Opening.{
  IsReady, placed, placed-IsValid, prepared-placed, verdict, observed, open_packet_lem,
}

-- A packet as it arrives, trusted or not: the size field of its header is the length of the body.
pub record Frame : Type 0 where
  pub key : ℕ
  pub check : ℕ
  pub body : List ℕ

abbrev pub frame_bytes : Frame → List ℕ
frame_bytes f = header_bytes (pos (length f.body)) f.key f.check ++ f.body

abbrev pub stream_bytes : List Frame → List ℕ
stream_bytes [] = []
stream_bytes (f ∷ fs) = frame_bytes f ++ stream_bytes fs

-- No body is longer than `n`, or than a `short` can say.
abbrev pub AllShort : ℕ → List Frame → Type 0
AllShort n [] = Unit
AllShort n (f ∷ fs) = (length f.body < 2 ^ 15) × (length f.body ≤ n) × AllShort n fs

abbrev pub AllReady : ℕ → List Serializer → Type 0
AllReady n [] = Unit
AllReady n (p ∷ ps) = IsReady n p × AllReady n ps

-- Less than a header, or a header and less than the body that it announces.
abbrev pub IsPart : List ℕ → Type 0
IsPart rest =
    (length rest < 5)
    ⊎ ((n : ℕ) × (key : ℕ) × (check : ℕ) × (part : List ℕ) × (n < 2 ^ 15)
        × (rest ≡ header_bytes (pos n) key check ++ part)
        × (length part < n))

abbrev pub decoded : ℕ → Frame → Bool × List ℕ
decoded static_key f = verdict (decrypt_bytes f.key static_key 0 0 0 (f.check ∷ f.body))

nonempty : (n : ℕ) (xs : List ℕ) → length xs ≡ n + 1 → (c : ℕ) × (cs : List ℕ) × (xs ≡ c ∷ cs)
nonempty n [] e = absurd (omega arith)
nonempty n (c ∷ cs) e = (c, cs, refl)

-- A valid ring that begins with a frame hands it over, and the verdict on it is delivered.
frame_lem :
    (static_key : ℕ) (r : RingBuffer) (fresh : Serializer) (f : Frame) (rest : List ℕ)
    → RingInvariant.IsValid r
    → IsReady (length f.body) fresh
    → length f.body < 2 ^ 15
    → RingInvariant.contents r ≡ frame_bytes f ++ rest
    → (r' : RingBuffer) × (p' : Serializer) × (d : Delivery) × (recved_packet r (prepared fresh)
        ≡ some (true, r', p'))
      × (open_packet static_key p' ≡ some d)
      × (observed d ≡ decoded static_key f)
      × IsValid d.packet
      × (RingInvariant.contents r' ≡ rest)
      × RingInvariant.IsValid r'
frame_lem static_key r fresh f rest v ready short held =
    let n = length f.body in
    let (p', taken, left, frame, head, tail, w) =
      recved_packet_lem r (placed n fresh ready) n f.key f.check f.body rest v
        (placed-IsValid n fresh ready) (refl, refl) ready.1 short refl held in
    let (c, cs, plain) =
      nonempty n (decrypt_bytes f.key static_key 0 0 0 (f.check ∷ f.body))
        (omega (arith, length-decrypt_bytes f.key static_key 0 0 0 (f.check ∷ f.body))) in
    let (d, opened, seen, sound) =
      open_packet_lem p' n f.key static_key f.check f.body w short head tail refl frame c cs
        plain in
    (
      (Ring.pop r (5 + n)).0,
      p',
      d,
      ap (recved_packet r) (prepared-placed n fresh ready) ∙ taken,
      opened,
      seen ∙ ap verdict (sym plain),
      sound,
      left,
      (pop_refines r v (5 + n)).2,
    )

part_lem :
    (static_key : ℕ) (r : RingBuffer) (fresh : Serializer) (pool : List Serializer)
    → RingInvariant.IsValid r
    → IsPart (RingInvariant.contents r)
    → receive_packets static_key (fresh ∷ pool) r ≡ some (record { ring = r; deliveries = [] })
unfolding receive_packets
part_lem static_key r fresh pool v (inl few) =
    rw
      (partial_packet_lem r (prepared fresh) 0 0 0 [] v (omega arith)
        (inl (omega (arith, few, RingPush.length-contents r))))
      refl
part_lem static_key r fresh pool v (inr (n, key, check, part, short, held, less)) =
    rw (partial_packet_lem r (prepared fresh) n key check part v short (inr (held, less))) refl

next_packet :
    (static_key : ℕ) (r r' : RingBuffer) (fresh p : Serializer) (pool : List Serializer)
    (d : Delivery) (inbox : Inbox)
    → recved_packet r (prepared fresh) ≡ some (true, r', p)
    → open_packet static_key p ≡ some d
    → receive_packets static_key pool r' ≡ some inbox
    → receive_packets static_key (fresh ∷ pool) r
      ≡ some (record inbox { deliveries = d ∷ inbox.deliveries })
unfolding receive_packets
next_packet static_key r r' fresh p pool d inbox taken opened others =
    rw (taken, opened, others) refl

-- The packets that were handed over are valid.
abbrev pub AllSound : List Delivery → Type 0
AllSound [] = Unit
AllSound (d ∷ ds) = IsValid d.packet × AllSound ds

pub stream-AllSound :
    (static_key n : ℕ) (frames : List Frame) (rest : List ℕ) (pool : List Serializer)
    (r : RingBuffer)
    → RingInvariant.IsValid r
    → RingInvariant.contents r ≡ stream_bytes frames ++ rest
    → AllShort n frames
    → IsPart rest
    → AllReady n pool
    → length frames < length pool
    → (inbox : Inbox) × (receive_packets static_key pool r ≡ some inbox)
      × (map observed inbox.deliveries ≡ map (decoded static_key) frames)
      × AllSound inbox.deliveries
      × (RingInvariant.contents inbox.ring ≡ rest)
      × RingInvariant.IsValid inbox.ring
stream-AllSound static_key n frames rest [] r v held short part ready many = absurd (omega arith)
stream-AllSound static_key n [] rest (fresh ∷ pool) r v held short part ready many =
    (_, part_lem static_key r fresh pool v (rw held part), refl, tt, held, v)
stream-AllSound static_key n (f ∷ fs) rest (fresh ∷ pool) r v held short part ready many =
    let (r', p', d, taken, opened, seen, sound, left, v') =
      frame_lem static_key r fresh f (stream_bytes fs ++ rest) v
        (fresh_ready, omega (arith, short.1, ready.0)) short.0
        (held ∙ append_assoc (frame_bytes f) (stream_bytes fs) rest) in
    let (inbox, others, verdicts, all_sound, over, w) =
      stream-AllSound static_key n fs rest pool r' v' left short.2 part ready.1 (omega arith) in
    (
      record inbox { deliveries = d ∷ inbox.deliveries },
      next_packet static_key r r' fresh p' pool d inbox taken opened others,
      ap₂ ◌∷◌ seen verdicts,
      (sound, all_sound),
      over,
      w,
    )
  where
    fresh_ready : IsValid fresh
    fresh_ready = ready.0.0

-- On a valid ring that holds frames and the beginning of another one, as many serializers as there
-- are frames and one more, each ready for the longest body, are enough for the loop to end: every
-- frame has been taken out, and `OnRecv` was called for each in turn, with its deciphered body, and
-- with what the checksum left over in front of it where that is not zero.
pub stream_lem :
    (static_key n : ℕ) (frames : List Frame) (rest : List ℕ) (pool : List Serializer)
    (r : RingBuffer)
    → RingInvariant.IsValid r
    → RingInvariant.contents r ≡ stream_bytes frames ++ rest
    → AllShort n frames
    → IsPart rest
    → AllReady n pool
    → length frames < length pool
    → (inbox : Inbox) × (receive_packets static_key pool r ≡ some inbox)
      × (map observed inbox.deliveries ≡ map (decoded static_key) frames)
      × (RingInvariant.contents inbox.ring ≡ rest)
      × RingInvariant.IsValid inbox.ring
stream_lem static_key n frames rest pool r v held short part ready many =
    let (inbox, e, verdicts, _, over, w) =
      stream-AllSound static_key n frames rest pool r v held short part ready many in
    (inbox, e, verdicts, over, w)

-- On a valid ring that holds frames and the beginning of another one, as many ready serializers as
-- more than a fifth of its bytes are enough for the loop to end. `OnRecv` was called once for each
-- frame, and at least five bytes for each call have been taken out altogether.
pub receiving-ends :
    (static_key n : ℕ) (frames : List Frame) (rest : List ℕ) (pool : List Serializer)
    (r : RingBuffer)
    → RingInvariant.IsValid r
    → RingInvariant.contents r ≡ stream_bytes frames ++ rest
    → AllShort n frames
    → IsPart rest
    → AllReady n pool
    → Ring.size r / 5 < length pool
    → (inbox : Inbox) × (receive_packets static_key pool r ≡ some inbox)
      × (length inbox.deliveries ≡ length frames)
      × (5 * length inbox.deliveries + Ring.size inbox.ring ≤ Ring.size r)
receiving-ends static_key n frames rest pool r v held short part ready many =
    let (inbox, e, verdicts, over, _) =
      stream_lem static_key n frames rest pool r v held short part ready (omega (arith, bound)) in
    let as_many : length inbox.deliveries ≡ length frames =
      sym (length-map observed inbox.deliveries)
      ∙ ap length verdicts
      ∙ length-map (decoded static_key) frames in
    (
      inbox,
      e,
      as_many,
      omega (arith, as_many, bound, ap length over, RingPush.length-contents inbox.ring),
    )
  where
    headers : (fs : List Frame) → 5 * length fs ≤ length (stream_bytes fs)
    headers [] = omega arith
    headers (f ∷ fs) = omega (
      arith,
      headers fs,
      length-append (frame_bytes f) (stream_bytes fs),
      length-append (header_bytes (pos (length f.body)) f.key f.check) f.body,
    )

    bound : 5 * length frames + length rest ≤ Ring.size r
    bound = omega (
      arith,
      headers frames,
      length-append (stream_bytes frames) rest,
      ap length held,
      RingPush.length-contents r,
    )
