-- ===== src/Serializer/Sealing/Received.antt =====
-- `decryption` of a serializer that holds a sealed packet, wherever it was sealed.
use chatting_server_single.Common.{
  ℕ, ◌+◌, ◌≤◌, ◌≡◌, sym, ap, ◌∙◌, arith, true, List, [], ◌∷◌, some, AllBytes, length, get_or, slice,
  splice, length-splice, slice-splice_self, slice-splice_above,
}
use chatting_server_single.Serializer.Memory.{Serializer}
use chatting_server_single.Serializer.Cipher.{encrypt_bytes, decrypt_bytes-encrypt_bytes}
use chatting_server_single.Serializer.Sealing.{header_size, sum_bytes, decryption}
use chatting_server_single.Serializer.Sealing.Checksum.{checksum_lem}
use chatting_server_single.Serializer.Sealing.Opened.{
  IsHeaded, slice-consed, input_size-headed, payload_size-headed,
}
use chatting_server_single.Serializer.Invariant.{read_at, write_at, read_start}

head_and_tail : (x y : ℕ) (xs ys : List ℕ) → x ∷ xs ≡ y ∷ ys → (x ≡ y) × (xs ≡ ys)
head_and_tail x y xs ys h = ground arith

module _ (q : Serializer) (n key static_key : ℕ) (body : List ℕ) (h : IsHeaded q n key)
    (sized : length body ≡ n) (all : AllBytes body)
    (wire : slice q.bytes 4 (n + 1)
      ≡ encrypt_bytes key static_key 0 0 0 (sum_bytes 0 body ∷ body)) where
  abbrev clear : List ℕ
  clear = sum_bytes 0 body ∷ body

  abbrev plain : List ℕ
  plain = splice q.bytes 4 clear

  abbrev middle : Serializer
  middle = record q { bytes = plain }

  abbrev opened : Serializer
  opened = record q { bytes = splice plain 4 (0 ∷ []) }

  length-plain : length plain ≡ length q.bytes
  length-plain = length-splice q.bytes 4 clear

  fits : 4 + length clear ≤ length q.bytes
  fits = omega (arith, h.room)

  parts : (get_or plain 4 0 ≡ sum_bytes 0 body) × (slice plain 5 n ≡ body)
  parts = head_and_tail (get_or plain 4 0) (sum_bytes 0 body) (slice plain 5 n) body (
      sym (slice-consed n plain)
      ∙ ap (slice plain 4) {y = length clear} (omega arith)
      ∙ slice-splice_self q.bytes 4 clear fits)

  pub decryption-received :
      (decryption static_key q ≡ some (true, opened)) × (slice opened.bytes 5 n ≡ body)
  unfolding decryption
  decryption-received = (
    rw (read_start q header_size (omega (arith, h.room))) (
        rw
          (
            input_size-headed q n key static_key h,
            read_at q 4 (n + 1) (omega (arith, h.room)),
            wire,
            h.key_field,
            decrypt_bytes-encrypt_bytes key static_key 0 0 0 clear,
          )
          (rw (write_at q 4 clear fits) (
            rw
              (
                read_at middle 4 1 (omega (arith, length-plain, h.room)),
                payload_size-headed q n key h,
                read_at middle header_size n (omega (arith, length-plain, h.room)),
                parts.0,
                parts.1,
                checksum_lem body all,
              )
              (rw (write_at middle 4 (0 ∷ []) (omega (arith, length-plain, h.room))))))),
    slice-splice_above plain 4 (0 ∷ []) 5 n (omega arith) ∙ parts.1,
  )
