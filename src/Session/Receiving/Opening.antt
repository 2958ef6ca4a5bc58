-- ===== src/Session/Receiving/Opening.antt =====
-- One packet through `recvedPacket`, `decryption` and the reads of its header.
use chatting_server_single.Common.{
  ℕ, ◌+◌, ◌^◌, ◌≤◌, ◌<◌, ◌≡◌, refl, sym, ap, ap₂, ◌∙◌, arith, Bool, true, false, List, [], ◌∷◌,
  ◌++◌, some, ◌==◌, inl, inr, if◌then◌else◌, u32, length, slice, get_or, pos, Bool-cases,
}
use chatting_server_single.Serializer.{read_fields}
use chatting_server_single.Serializer.Memory.{Serializer, clear, move_front, inc_reference_counter}
use chatting_server_single.Serializer.Invariant.{IsValid, sizes, move_rear_pos, move_front_pos}
use chatting_server_single.Serializer.Contents.{contents}
use chatting_server_single.Serializer.Cipher.{decrypt_bytes}
use chatting_server_single.Serializer.Sealing.{header_bytes, subtract_bytes}
use chatting_server_single.Serializer.Sealing.Opened.{IsHeaded, slice-consed}
use chatting_server_single.Serializer.Sealing.Checked.{decryption-answers}
use chatting_server_single.Serializer.Skipped.{skip, read_fields-skip}
use chatting_server_single.Session.Delivery.{received-IsHeaded, received_wire}
use chatting_server_single.Session.Receiving.{Delivery, prepared, open_packet}

-- A serializer of the pool with room for a packet of `n` bytes.
abbrev pub IsReady : ℕ → Serializer → Type 0
IsReady n fresh = IsValid fresh × (5 + n ≤ fresh.buffer_size)

module _ (n : ℕ) (fresh : Serializer) (ready : IsReady n fresh) where
  empty : Serializer
  empty = record fresh {
    head_ptr = fresh.buffer_ptr;
    tail_ptr = fresh.buffer_ptr;
    reference_counter = u32 (fresh.reference_counter + 1);
  }

  empty-IsValid : IsValid empty
  unfolding empty
  empty-IsValid = let v = ready.0 in omega (arith, v.small, v.addressed, v.block)

  longer : Serializer
  unfolding empty
  longer = record empty { tail_ptr = fresh.buffer_ptr + 5 }

  longer-IsValid : IsValid longer
  unfolding longer
  longer-IsValid = let v = ready.0 in omega (arith, v.small, v.addressed, v.block, ready.1)

  abbrev pub placed : Serializer
  placed = record fresh {
    head_ptr = fresh.buffer_ptr + 5;
    tail_ptr = fresh.buffer_ptr + 5;
    reference_counter = u32 (fresh.reference_counter + 1);
  }

  pub placed-IsValid : IsValid placed
  placed-IsValid = let v = ready.0 in omega (arith, v.small, v.addressed, v.block, ready.1)

  pub prepared-placed : prepared fresh ≡ placed
  unfolding prepared clear longer inc_reference_counter
  prepared-placed =
      ap (λ s. (move_front s.0 (pos 5)).0)
        (move_rear_pos empty 5 empty-IsValid (omega (arith, sizes empty-IsValid, ready.1)))
      ∙ ap (λ s. s.0) (move_front_pos longer 5 longer-IsValid (omega (arith, sizes longer-IsValid)))

cons_parts : (x z : ℕ) (xs zs : List ℕ) → x ∷ xs ≡ z ∷ zs → (x ≡ z) × (xs ≡ zs)
cons_parts x z xs zs e = ground arith

-- What a reader finds behind the header of a deciphered packet: whether the checksum came out as
-- zero, and the body, behind what came out if it is not zero.
abbrev pub verdict : List ℕ → Bool × List ℕ
verdict [] = (true, [])
verdict (c ∷ cs) =
    if subtract_bytes c cs == 0 then (true, cs) else (false, subtract_bytes c cs ∷ cs)

abbrev pub observed : Delivery → Bool × List ℕ
observed d = (d.accepted, contents d.packet)

module _ (p : Serializer) (n key static_key e : ℕ) (es : List ℕ) (w : IsValid p)
    (short : n < 2 ^ 15) (head : p.head_ptr ≡ p.buffer_ptr)
    (tail : p.tail_ptr ≡ p.buffer_ptr + (5 + n)) (sized : length es ≡ n)
    (frame : slice p.bytes 0 (5 + n) ≡ header_bytes (pos n) key e ++ es) where
  abbrev behind : Serializer
  behind = skip 4 p

  behind-IsHeaded : IsHeaded behind n key
  behind-IsHeaded =
      let h = received-IsHeaded p n key e es w short tail sized frame in
      record {
        tail_at = h.tail_at;
        short = h.short;
        room = h.room;
        addressed = h.addressed;
        size_field = h.size_field;
        key_field = h.key_field;
      }

  module _ (c : ℕ) (cs b : List ℕ) (left : ℕ) (same : length b ≡ length p.bytes)
      (there : slice b 4 (n + 1) ≡ left ∷ cs) where
    abbrev answered : Serializer
    answered = record behind { bytes = b }

    answered-IsValid : IsValid answered
    answered-IsValid = omega (arith, w.small, w.addressed, w.block, same, head, tail, w.tail_high)

    abbrev passed : Serializer
    passed = skip 1 answered

    passed-IsValid : IsValid passed
    passed-IsValid =
        let v = answered-IsValid in
        omega (arith, v.small, v.addressed, v.block, v.tail_high, head, tail)

    reading-on : (vs : List ℕ) × (read_fields (1 ∷ []) answered ≡ some (vs, passed))
    reading-on =
        read_fields-skip (1 ∷ []) answered answered-IsValid
          (omega (arith, sizes answered-IsValid, head, tail))

    contents-answered : contents answered ≡ left ∷ cs
    unfolding contents
    contents-answered =
        ap₂ (slice b) (omega (arith, head)) (omega (arith, sizes answered-IsValid, head, tail))
        ∙ there

    contents-passed : contents passed ≡ cs
    unfolding contents
    contents-passed =
        ap₂ (slice b) (omega (arith, head)) (omega (arith, sizes passed-IsValid, head, tail))
        ∙ (cons_parts (get_or b 4 0) left (slice b 5 n) cs (sym (slice-consed n b) ∙ there)).1

  reading-header : (vs : List ℕ) × (read_fields (1 ∷ 2 ∷ 1 ∷ []) p ≡ some (vs, behind))
  reading-header = read_fields-skip (1 ∷ 2 ∷ 1 ∷ []) p w (omega (arith, sizes w, head, tail))

  pub open_packet_lem :
      (c : ℕ) (cs : List ℕ)
      → decrypt_bytes key static_key 0 0 0 (e ∷ es) ≡ c ∷ cs
      → (d : Delivery) × (open_packet static_key p ≡ some d)
        × (observed d ≡ verdict (c ∷ cs))
        × IsValid d.packet
  unfolding open_packet
  open_packet_lem c cs plain =
      let (_, header) = reading-header in
      let (b, answer, there, same) =
        decryption-answers behind n key static_key c cs (e ∷ es) behind-IsHeaded
          (received_wire p n key e es w short tail sized frame) plain in
      let (_, on) = reading-on c cs b (subtract_bytes c cs) same there in
      elim (Bool-cases (subtract_bytes c cs == 0)) [
        | inl zero_left ↦ (
          record { accepted = true; packet = passed c cs b (subtract_bytes c cs) same there },
          rw header (rw answer (rw zero_left (rw on refl))),
          rw zero_left
              (ap (λ l. (true, l)) (contents-passed c cs b (subtract_bytes c cs) same there)),
          passed-IsValid c cs b (subtract_bytes c cs) same there,
        )
        | inr nonzero ↦ (
          record { accepted = false; packet = answered c cs b (subtract_bytes c cs) same there },
          rw header (rw answer (rw nonzero refl)),
          rw nonzero
              (ap (λ l. (false, l)) (contents-answered c cs b (subtract_bytes c cs) same there)),
          answered-IsValid c cs b (subtract_bytes c cs) same there,
        )
      ]
