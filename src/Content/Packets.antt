-- ===== src/Content/Packets.antt =====
-- The packet that a job begins to write.
use chatting_server_single.Common.{
  ℕ, ◌+◌, ◌≤◌, ◌≡◌, ◌∙◌, ap, u32, arith, List, [], ◌++◌, some, length, pos,
}
use chatting_server_single.Serializer.{write_fields}
use chatting_server_single.Serializer.Memory.{
  Serializer, useable_size, clear, move_front, inc_reference_counter,
}
use chatting_server_single.Serializer.Invariant.{IsValid, sizes, move_rear_pos, move_front_pos}
use chatting_server_single.Serializer.Contents.{contents, length-contents}
use chatting_server_single.Serializer.Scalars.{field_bytes, write_fields_lem, nil_of_length}
use chatting_server_single.Content.{Environment, new_packet}

-- The pool has a valid serializer with room for `n` bytes behind a header.
abbrev pub Ready : Environment → ℕ → Type 0
Ready env n = IsValid env.fresh × (5 + n ≤ env.fresh.buffer_size)

module _ (env : Environment) (n : ℕ) (ready : Ready env n) where
  emptied : Serializer
  emptied = record env.fresh { head_ptr = env.fresh.buffer_ptr; tail_ptr = env.fresh.buffer_ptr }

  emptied-IsValid : IsValid emptied
  unfolding emptied
  emptied-IsValid = let v = ready.0 in omega (arith, v.small, v.addressed, v.block, ready.1)

  opened : Serializer
  unfolding emptied
  opened = record emptied { tail_ptr = env.fresh.buffer_ptr + 5 }

  opened-IsValid : IsValid opened
  unfolding opened
  opened-IsValid = let v = ready.0 in omega (arith, v.small, v.addressed, v.block, ready.1)

  begun : Serializer
  unfolding opened
  begun = record opened {
    head_ptr = env.fresh.buffer_ptr + 5;
    reference_counter = u32 (env.fresh.reference_counter + 1);
  }

  begun-IsValid : IsValid begun
  unfolding begun
  begun-IsValid = let v = ready.0 in omega (arith, v.small, v.addressed, v.block, ready.1)

  new_packet-begun : new_packet env ≡ begun
  unfolding new_packet clear begun inc_reference_counter
  new_packet-begun =
      ap (λ s. (inc_reference_counter (move_front s.0 (pos 5)).0 1).0)
        (move_rear_pos emptied 5 emptied-IsValid (omega (arith, sizes emptied-IsValid, ready.1)))
      ∙ ap (λ s. (inc_reference_counter s.0 1).0)
          (move_front_pos opened 5 opened-IsValid (omega (arith, sizes opened-IsValid)))

  nothing : contents begun ≡ []
  unfolding begun
  nothing =
      nil_of_length (contents begun) (length-contents begun ∙ omega (arith, sizes begun-IsValid))

  -- It is valid and empty, and has room.
  pub new_packet_lem :
      (s : Serializer) × (new_packet env ≡ s) × IsValid s × (contents s ≡ []) × (n ≤ useable_size s)
  unfolding begun
  new_packet_lem =
      (begun, new_packet-begun, begun-IsValid, nothing, omega (arith, sizes begun-IsValid, ready.1))

  -- What is written to it is its contents.
  pub packet_lem :
      (fs : List (ℕ × ℕ))
      → length (field_bytes fs) ≤ n
      → (p : Serializer) × (write_fields env.blocks fs (new_packet env) ≡ some p)
        × (contents p ≡ field_bytes fs)
  packet_lem fs short =
      let (s, begins, v, empty, room) = new_packet_lem in
      let (p, e, held, _) = write_fields_lem env.blocks fs s v (omega arith) in
      (p, rw begins e, held ∙ ap (λ l. l ++ field_bytes fs) empty)
