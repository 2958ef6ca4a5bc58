-- ===== src/Serializer/Sealing/Headed.antt =====
-- A packet that is sealed by `setHeader` and `encryption` is opened by `decryption` with the same
-- static key: the checksum holds and the payload is what it was.
use chatting_server_single.Common.{
  ℕ, ◌+◌, ◌^◌, ◌<◌, ◌≡◌, sym, ap, ap₂, refl, ◌∙◌, arith, true, List, ◌∷◌, ◌++◌, some, ◌>>=◌,
  AllBytes, get_or, slice, splice, length-splice, slice-splice_above, negsuc, pos,
  get_or-splice_inside, get_or-splice_below, slice-add, Option,
}
use mathlib.Core.Path.{subst}
use chatting_server_single.Serializer.Memory.{Serializer, move_front}
use chatting_server_single.Serializer.Cipher.{encrypt_bytes, encrypt_bytes-AllBytes}
use chatting_server_single.Serializer.Sealing.{
  header_size, header_bytes, sum_bytes, payload_size, set_header, encryption, decryption,
}
use chatting_server_single.Serializer.Sealing.Opened.{
  IsHeaded, sealed, opened, cipher, encryption-headed, decryption-sealed, payload-opened,
  target-sealed, slice-consed,
}
use chatting_server_single.Serializer.Sealing.Checksum.{sum_bytes-lt}
use chatting_server_single.Serializer.Invariant.{IsValid, read_at, write_start, move_front-IsValid}

some_injective : (p q : Serializer) → ◌≡◌ {A = Option Serializer} (some p) (some q) → p ≡ q
some_injective p q h = ground arith

module _ (s : Serializer) (v : IsValid s) (n key static_key : ℕ)
    (written : s.tail_ptr ≡ s.buffer_ptr + (header_size + n)) (short : n < 2 ^ 15) where
  -- The payload, and what `setHeader` makes of the serializer.
  abbrev payload : List ℕ
  payload = slice s.bytes header_size n

  abbrev header : List ℕ
  header = header_bytes (pos n) key (sum_bytes 0 payload)

  headed_bytes : Serializer
  headed_bytes = record s { bytes = splice s.bytes 0 header }

  abbrev headed : Serializer
  headed = (move_front headed_bytes (negsuc 4)).0

  set_header-headed : set_header key s ≡ some headed
  unfolding set_header headed_bytes
  set_header-headed = rw (
    size_lem,
    read_at s header_size n (omega (arith, v.block, v.tail_high)),
    write_start s header (omega (arith, v.block, v.tail_high)),
  )
    where
      size_lem : payload_size s ≡ pos n
      size_lem = ground (arith, written, v.addressed, v.tail_high, short)

  field : (i : ℕ) → i < 5 → get_or (splice s.bytes 0 header) (0 + i) 0 ≡ get_or header i 0
  field i h = get_or-splice_inside s.bytes 0 header i 0 (omega (arith, v.block, v.tail_high)) h

  headed-IsHeaded : IsHeaded headed n key
  unfolding move_front headed_bytes
  headed-IsHeaded = record {
    tail_at = written;
    short = short;
    room = omega (arith, length-splice s.bytes 0 header, v.block, v.tail_high);
    addressed = omega (arith, length-splice s.bytes 0 header, v.block, v.addressed);
    size_field = omega (arith, field 1 (omega arith), field 2 (omega arith));
    key_field = field 3 (omega arith);
  }

  headed_parts :
      (get_or headed.bytes 4 0 ≡ sum_bytes 0 payload) × (slice headed.bytes 5 n ≡ payload)
  unfolding move_front headed_bytes
  headed_parts = (field 4 (omega arith), slice-splice_above s.bytes 0 header 5 n (omega arith))

  headed-IsValid : IsValid headed
  unfolding headed_bytes
  headed-IsValid = move_front-IsValid (negsuc 4) (record {
    small = v.small;
    addressed = v.addressed;
    block = length-splice s.bytes 0 header ∙ v.block;
    head_low = v.head_low;
    in_order = v.in_order;
    tail_high = v.tail_high;
  })

  result : Serializer
  result = sealed headed n key static_key headed-IsHeaded

  seal-result : (set_header key s >>= encryption static_key) ≡ some result
  unfolding result
  seal-result = rw set_header-headed (encryption-headed headed n key static_key headed-IsHeaded)

  result-IsValid : IsValid result
  unfolding result
  result-IsValid = record {
    small = headed-IsValid.small;
    addressed = headed-IsValid.addressed;
    block =
        length-splice headed.bytes 4 (cipher headed n key static_key headed-IsHeaded)
        ∙ headed-IsValid.block;
    head_low = headed-IsValid.head_low;
    in_order = headed-IsValid.in_order;
    tail_high = headed-IsValid.tail_high;
  }

  result-AllBytes : AllBytes payload → AllBytes (slice result.bytes header_size n)
  unfolding result
  result-AllBytes all = both.1
    where
      clear : AllBytes (slice headed.bytes 4 (n + 1))
      clear =
          rw (slice-consed n headed.bytes, headed_parts.0, headed_parts.1)
            (sum_bytes-lt 0 payload (omega arith), all)

      both : AllBytes (get_or result.bytes 4 0 ∷ slice result.bytes header_size n)
      both =
          subst AllBytes
            (sym (target-sealed headed n key static_key headed-IsHeaded)
              ∙ slice-consed n result.bytes)
            (encrypt_bytes-AllBytes key static_key 0 0 0 (slice headed.bytes 4 (n + 1)) clear)

  -- On the wire: the header, its last byte replaced by the first one of the cipher, and the others.
  cipher_wire :
      slice result.bytes 4 (n + 1)
      ≡ encrypt_bytes key static_key 0 0 0 (sum_bytes 0 payload ∷ payload)
  unfolding result
  cipher_wire =
      target-sealed headed n key static_key headed-IsHeaded
      ∙ ap (encrypt_bytes key static_key 0 0 0)
          (slice-consed n headed.bytes ∙ ap₂ ◌∷◌ headed_parts.0 headed_parts.1)

  header_wire : (i : ℕ) → i < 4 → get_or result.bytes i 0 ≡ get_or header i 0
  unfolding result headed_bytes move_front
  header_wire i h =
      get_or-splice_below headed.bytes 4 (cipher headed n key static_key headed-IsHeaded) i 0 h
      ∙ ap (λ k. get_or (splice s.bytes 0 header) k 0) {x = i} {y = 0 + i} (omega arith)
      ∙ field i (omega arith)

  split_wire :
      slice result.bytes 0 (4 + (n + 1))
      ≡ 0x77
        ∷ get_or header 1 0
        ∷ get_or header 2 0
        ∷ key
        ∷ encrypt_bytes key static_key 0 0 0 (sum_bytes 0 payload ∷ payload)
  split_wire =
      slice-add result.bytes 0 4 (n + 1)
      ∙ rw
          (
            header_wire 0 (omega arith),
            header_wire 1 (omega arith),
            header_wire 2 (omega arith),
            header_wire 3 (omega arith),
            cipher_wire,
          )
          refl

  pub sealing_wire :
      (s1 : Serializer)
      → (set_header key s >>= encryption static_key) ≡ some s1
      → (e : ℕ) × (es : List ℕ) × (e ∷ es
          ≡ encrypt_bytes key static_key 0 0 0 (sum_bytes 0 payload ∷ payload))
        × (slice s1.bytes 0 (4 + (n + 1)) ≡ header_bytes (pos n) key e ++ es)
  unfolding encrypt_bytes
  sealing_wire s1 same =
      (_, _, refl, ap (λ q. slice q.bytes 0 (4 + (n + 1))) (is_result s1 same) ∙ split_wire)
    where
      is_result :
          (q : Serializer) → (set_header key s >>= encryption static_key) ≡ some q → q ≡ result
      is_result q e = some_injective q result (sym e ∙ seal-result)

  -- A valid packet of `n` < 2 ^ 15 bytes of payload behind the header's place that `setHeader` and
  -- `encryption` have sealed passes the checksum of `decryption` with the same static key, and its
  -- payload is what it was.
  pub decryption-sealing :
      AllBytes payload
      → (s1 : Serializer) × (s2 : Serializer) × ((set_header key s >>= encryption static_key)
          ≡ some s1)
        × (decryption static_key s1 ≡ some (true, s2))
        × (slice s2.bytes header_size n ≡ slice s.bytes header_size n)
        × (s1.tail_ptr ≡ s1.buffer_ptr + (header_size + n))
        × IsValid s1
        × AllBytes (slice s1.bytes header_size n)
  unfolding result
  decryption-sealing all = (
    result,
    opened headed n key static_key headed-IsHeaded,
    seal-result,
    decryption-sealed headed n key static_key headed-IsHeaded (rw headed_parts.1 all)
        (headed_parts.0 ∙ ap (sum_bytes 0) (sym headed_parts.1)),
    payload-opened headed n key static_key headed-IsHeaded ∙ headed_parts.1,
    unfold move_front headed_bytes in written,
    result-IsValid,
    result-AllBytes all,
  )

-- Sealing a valid packet of less than 2 ^ 15 bytes again, as a broadcast does for each further
-- receiver, encrypts the ciphertext: the packet passes the checksum at the receiver, with the first
-- ciphertext for a payload.
pub decryption-sealing_twice :
    (s : Serializer) (n key key' static_key : ℕ)
    → IsValid s
    → s.tail_ptr ≡ s.buffer_ptr + (header_size + n)
    → n < 2 ^ 15
    → AllBytes (slice s.bytes header_size n)
    → (s1 : Serializer) × (s2 : Serializer) × (s3 : Serializer) × ((set_header key s
          >>= encryption static_key)
        ≡ some s1)
      × ((set_header key' s1 >>= encryption static_key) ≡ some s2)
      × (decryption static_key s2 ≡ some (true, s3))
      × (slice s3.bytes header_size n ≡ slice s1.bytes header_size n)
decryption-sealing_twice s n key key' static_key v written short all =
    let (s1, _, e1, _, _, t1, v1, all1) =
      decryption-sealing s v n key static_key written short all in
    let (s2, s3, e2, d2, p2, _, _, _) = decryption-sealing s1 v1 n key' static_key t1 short all1 in
    (s1, s2, s3, e1, e2, d2, p2)
