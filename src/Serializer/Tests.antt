-- ===== src/Serializer/Tests.antt =====
-- A packet of three bytes on concrete keys, and the theorems about serializers at such inputs.
use chatting_server_single.Common.{
  ℕ, ◌+◌, ◌≡◌, refl, inr, arith, min, true, List, [], ◌∷◌, ◌++◌, none, some, ◌>>=◌, length, slice,
  AllBytes, replicate,
}
use chatting_server_single.Serializer.{push, pop, peek, write_fields, read_fields}
use chatting_server_single.Serializer.Memory.{
  Serializer, Block, size, useable_size, move_front, read_mem, write_mem,
}
use chatting_server_single.Serializer.Cipher.{encrypt_bytes}
use chatting_server_single.Serializer.Sealing.{
  header_size, sum_bytes, set_header, encryption, decryption,
}
use chatting_server_single.Serializer.Sealing.Headed.{decryption-sealing, decryption-sealing_twice}
use chatting_server_single.Serializer.Invariant.{IsValid}
use chatting_server_single.Serializer.Contents.{contents, push_lem, pop_lem}
use chatting_server_single.Serializer.Scalars.{read_fields-write_fields}
use chatting_server_single.Serializer.Resize.{push_growth_faults}

-- The payload 65, 66, 67 behind a header that is still to be filled in.
abbrev packet : Serializer
packet = record {
  buffer_ptr = 4096;
  buffer_size = 12;
  head_ptr = 4101;
  tail_ptr = 4104;
  bytes = 0 ∷ 0 ∷ 0 ∷ 0 ∷ 0 ∷ 65 ∷ 66 ∷ 67 ∷ 0 ∷ 0 ∷ 0 ∷ 0 ∷ [];
  reference_counter = 1;
}

abbrev empty : Serializer
empty = record packet { head_ptr = 4101; tail_ptr = 4101 }

packet-IsValid : IsValid packet
packet-IsValid = omega arith

empty-IsValid : IsValid empty
empty-IsValid = omega arith

-- The wire format of `packet` under the static key 0x32 and the random key 7.
wire :
    (set_header 7 packet >>= encryption 0x32 >>= λ s. some (slice s.bytes 0 8))
    ≡ some (0x77 ∷ 3 ∷ 0 ∷ 7 ∷ 0xfd ∷ 0xa7 ∷ 0x3e ∷ 0xda ∷ [])
unfolding set_header sum_bytes encryption read_mem write_mem move_front encrypt_bytes
wire = refl

decryption-sealing_example :
    (s1 : Serializer) × (s2 : Serializer) × ((set_header 7 packet >>= encryption 0x32) ≡ some s1)
    × (decryption 0x32 s1 ≡ some (true, s2))
    × (slice s2.bytes header_size 3 ≡ 65 ∷ 66 ∷ 67 ∷ [])
    × (s1.tail_ptr ≡ s1.buffer_ptr + (header_size + 3))
    × IsValid s1
    × AllBytes (slice s1.bytes header_size 3)
decryption-sealing_example =
    decryption-sealing packet packet-IsValid 3 7 0x32 refl (omega arith) (omega arith)

decryption-sealing_twice_example :
    (s1 : Serializer) × (s2 : Serializer) × (s3 : Serializer) × ((set_header 7 packet
        >>= encryption 0x32)
      ≡ some s1)
    × ((set_header 9 s1 >>= encryption 0x32) ≡ some s2)
    × (decryption 0x32 s2 ≡ some (true, s3))
    × (slice s3.bytes header_size 3 ≡ slice s1.bytes header_size 3)
decryption-sealing_twice_example =
    decryption-sealing_twice packet 3 7 9 0x32 packet-IsValid refl (omega arith) (omega arith)

push_lem_example :
    (s' : Serializer) × (push [] (1 ∷ 2 ∷ []) packet ≡ some s')
    × (contents s' ≡ contents packet ++ 1 ∷ 2 ∷ [])
    × (useable_size s' + 2 ≡ useable_size packet)
    × (s'.head_ptr ≡ 4101)
    × IsValid s'
unfolding useable_size
push_lem_example = push_lem packet (1 ∷ 2 ∷ []) packet-IsValid (omega arith) []

pop_lem_example :
    (out : List ℕ) × (s' : Serializer) × (pop 2 packet ≡ some (out, s'))
    × (peek 2 packet ≡ some out)
    × (contents packet ≡ out ++ contents s')
    × (length out ≡ min 2 (size packet))
    × IsValid s'
pop_lem_example = pop_lem packet 2 packet-IsValid

abbrev answer : List (ℕ × ℕ)
answer = (2, 4) ∷ (4, 70000) ∷ []

read_fields-write_fields_example :
    (s' : Serializer) × (s'' : Serializer) × (write_fields [] answer empty ≡ some s')
    × (read_fields (2 ∷ 4 ∷ []) s' ≡ some (4 ∷ 70000 ∷ [], s''))
    × (contents s'' ≡ [])
unfolding size useable_size
read_fields-write_fields_example =
    read_fields-write_fields [] answer empty empty-IsValid refl (omega arith) (omega arith)

-- A block for twice the size, elsewhere.
abbrev larger : Block
larger = record { address = 8192; junk = replicate 24 0 }

push_growth_faults_example : push (larger ∷ []) (1 ∷ 2 ∷ 3 ∷ 4 ∷ 5 ∷ []) packet ≡ none
unfolding useable_size
push_growth_faults_example =
    push_growth_faults larger [] (1 ∷ 2 ∷ 3 ∷ 4 ∷ 5 ∷ []) packet packet-IsValid (omega arith)
      (inr (omega arith)) refl (omega arith) (omega arith)
