-- ===== src/Serializer/Sealing/Opened.antt =====
-- `encryption` and `decryption` of a serializer that bears a header.
use chatting_server_single.Common.{
  ℕ, suc, tabulate-ext, ◌+◌, ◌*◌, ◌^◌, ◌≤◌, ◌<◌, ◌≡◌, sym, ap, ap₂, ◌∙◌, arith, true, List, [], ◌∷◌,
  some, AllBytes, length, get_or, slice, splice, length-slice, length-splice, slice-splice_self,
  slice-splice_above, pos, get_or-splice_below,
}
use chatting_server_single.Serializer.Memory.{Serializer}
use chatting_server_single.Serializer.Cipher.{
  encrypt_bytes, decrypt_bytes-encrypt_bytes, length-encrypt_bytes,
}
use chatting_server_single.Serializer.Sealing.{
  header_size, sum_bytes, payload_size, input_size, encryption, decryption,
}
use chatting_server_single.Serializer.Sealing.Checksum.{checksum_lem}
use chatting_server_single.Serializer.Invariant.{read_at, write_at, read_start}

-- What the header of a packet with a payload of `n` bytes says.
pub record IsHeaded (s : Serializer) (n key : ℕ) : Type 0 where
  pub tail_at : s.tail_ptr ≡ s.buffer_ptr + (header_size + n)
  pub short : n < 2 ^ 15
  pub room : header_size + n ≤ length s.bytes
  pub addressed : s.buffer_ptr + length s.bytes < 2 ^ 64
  pub size_field : get_or s.bytes 1 0 + 2 ^ 8 * get_or s.bytes 2 0 ≡ n
  pub key_field : get_or s.bytes 3 0 ≡ key

module _ (s : Serializer) (n key static_key : ℕ) (h : IsHeaded s n key) where
  abbrev pub encrypted : Serializer
  encrypted = record s {
    bytes = splice s.bytes 4 (encrypt_bytes key static_key 0 0 0 (slice s.bytes 4 (n + 1)));
  }

  pub input_size-headed : input_size (slice s.bytes 0 header_size) ≡ n + 1
  input_size-headed = ground (arith, h.size_field, h.short)

  pub encryption-headed : encryption static_key s ≡ some encrypted
  unfolding encryption
  encryption-headed = rw (read_start s header_size (omega (arith, h.room))) (
      rw (input_size-headed, read_at s 4 (n + 1) (omega (arith, h.room)), h.key_field)
        (write_at s 4 _ (
          omega (
            arith,
            h.room,
            length-encrypt_bytes key static_key 0 0 0 (slice s.bytes 4 (n + 1)),
            length-slice s.bytes 4 (n + 1),
          ))))

-- The payload is what the loops over it run through.
pub payload_size-headed : (s : Serializer) (n key : ℕ) → IsHeaded s n key → payload_size s ≡ pos n
payload_size-headed s n key h = ground (arith, h.tail_at, h.addressed, h.short, h.room)

pub slice-consed : (n : ℕ) (b : List ℕ) → slice b 4 (n + 1) ≡ get_or b 4 0 ∷ slice b header_size n
slice-consed n b =
    ap (slice b 4) one_more
    ∙ ap (λ l. get_or b 4 0 ∷ l)
        (tabulate-ext n (λ k. get_or b (4 + suc k) 0) (λ k. get_or b (5 + k) 0)
          (λ k p. ap (λ j. get_or b j 0) (omega arith)))
  where
    one_more : n + 1 ≡ suc n
    one_more = omega arith

-- Blocks that agree from the checksum on have one checksum and one payload.
same_parts :
    (n : ℕ) (b b' : List ℕ)
    → slice b 4 (n + 1) ≡ slice b' 4 (n + 1)
    → (get_or b 4 0 ≡ get_or b' 4 0) × (slice b 5 n ≡ slice b' 5 n)
same_parts n b b' e =
    (cc (slice-consed n b, slice-consed n b'), cc (slice-consed n b, slice-consed n b'))

module _ (s : Serializer) (n key static_key : ℕ) (h : IsHeaded s n key) where
  abbrev pub sealed : Serializer
  sealed = encrypted s n key static_key h

  abbrev pub cipher : List ℕ
  cipher = encrypt_bytes key static_key 0 0 0 (slice s.bytes 4 (n + 1))

  length-cipher : length cipher ≡ n + 1
  length-cipher =
      length-encrypt_bytes key static_key 0 0 0 (slice s.bytes 4 (n + 1))
      ∙ length-slice s.bytes 4 (n + 1)

  pub sealed-IsHeaded : IsHeaded sealed n key
  sealed-IsHeaded = record {
    tail_at = h.tail_at;
    short = h.short;
    room = rw (length-splice s.bytes 4 cipher) h.room;
    addressed = rw (length-splice s.bytes 4 cipher) h.addressed;
    size_field =
        ap₂ (λ x y. x + 2 ^ 8 * y) (get_or-splice_below s.bytes 4 cipher 1 0 (omega arith))
          (get_or-splice_below s.bytes 4 cipher 2 0 (omega arith))
        ∙ h.size_field;
    key_field = get_or-splice_below s.bytes 4 cipher 3 0 (omega arith) ∙ h.key_field;
  }

  pub target-sealed : slice sealed.bytes 4 (n + 1) ≡ cipher
  target-sealed =
      ap (slice sealed.bytes 4) (sym length-cipher)
      ∙ slice-splice_self s.bytes 4 cipher (omega (arith, length-cipher, h.room))

  -- The block after the cipher has run back over it.
  abbrev pub plain : List ℕ
  plain = splice sealed.bytes 4 (slice s.bytes 4 (n + 1))

  plain_parts : (get_or plain 4 0 ≡ get_or s.bytes 4 0) × (slice plain 5 n ≡ slice s.bytes 5 n)
  plain_parts = same_parts n plain s.bytes (
      ap (slice plain 4) (sym (length-slice s.bytes 4 (n + 1)))
      ∙ slice-splice_self sealed.bytes 4 (slice s.bytes 4 (n + 1))
          (omega (arith, length-slice s.bytes 4 (n + 1), length-splice s.bytes 4 cipher, h.room)))

  abbrev pub opened : Serializer
  opened = record s { bytes = splice plain 4 (0 ∷ []) }

  pub decryption-sealed :
      AllBytes (slice s.bytes 5 n)
      → get_or s.bytes 4 0 ≡ sum_bytes 0 (slice s.bytes 5 n)
      → decryption static_key sealed ≡ some (true, opened)
  unfolding decryption
  decryption-sealed all check =
      rw (read_start sealed header_size (omega (arith, sealed-IsHeaded.room))) (
        rw
          (
            input_size-headed sealed n key static_key sealed-IsHeaded,
            read_at sealed 4 (n + 1) (omega (arith, sealed-IsHeaded.room)),
            target-sealed,
            sealed-IsHeaded.key_field,
            decrypt_bytes-encrypt_bytes key static_key 0 0 0 (slice s.bytes 4 (n + 1)),
          )
          (rw
            (write_at sealed 4 (slice s.bytes 4 (n + 1))
              (omega (arith, sealed-IsHeaded.room, length-slice s.bytes 4 (n + 1))))
            (rw
              (
                read_at middle 4 1 (omega (arith, length-plain, h.room)),
                payload_size-headed s n key h,
                read_at middle header_size n (omega (arith, length-plain, h.room)),
                plain_parts.0,
                plain_parts.1,
                check,
                checksum_lem (slice s.bytes 5 n) all,
              )
              (rw (write_at middle 4 (0 ∷ []) (omega (arith, length-plain, h.room)))))))
    where
      middle : Serializer
      middle = record s { bytes = plain }

      length-plain : length plain ≡ length s.bytes
      length-plain =
          length-splice sealed.bytes 4 (slice s.bytes 4 (n + 1)) ∙ length-splice s.bytes 4 cipher

  pub payload-opened : slice opened.bytes 5 n ≡ slice s.bytes 5 n
  payload-opened = slice-splice_above plain 4 (0 ∷ []) 5 n (omega arith) ∙ plain_parts.1
