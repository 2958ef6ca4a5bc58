-- ===== src/Serializer/Sealing/Checked.antt =====
-- `decryption` of any serializer whose header fits it, whoever wrote it.
use chatting_server_single.Common.{
  ℕ, ◌+◌, ◌≤◌, ◌≡◌, sym, ap, ap₂, ◌∙◌, arith, ◌==◌, List, [], ◌∷◌, some, length, get_or, slice,
  splice, length-slice, length-splice, slice-splice_self, slice-splice_above, get_or-splice_inside,
}
use chatting_server_single.Serializer.Memory.{Serializer}
use chatting_server_single.Serializer.Cipher.{decrypt_bytes, length-decrypt_bytes}
use chatting_server_single.Serializer.Sealing.{header_size, subtract_bytes, decryption}
use chatting_server_single.Serializer.Sealing.Opened.{
  IsHeaded, input_size-headed, payload_size-headed, slice-consed,
}
use chatting_server_single.Serializer.Invariant.{read_at, write_at, read_start}

cons_split : (x z : ℕ) (xs zs : List ℕ) → x ∷ xs ≡ z ∷ zs → (x ≡ z) × (xs ≡ zs)
cons_split x z xs zs e = ground arith

module _ (q : Serializer) (n key static_key c : ℕ) (cs es : List ℕ) (h : IsHeaded q n key)
    (wire : slice q.bytes 4 (n + 1) ≡ es)
    (clear : decrypt_bytes key static_key 0 0 0 es ≡ c ∷ cs) where
  abbrev middle : Serializer
  middle = record q { bytes = splice q.bytes 4 (c ∷ cs) }

  length-clear : length (c ∷ cs) ≡ n + 1
  length-clear =
      ap length (sym clear)
      ∙ length-decrypt_bytes key static_key 0 0 0 es
      ∙ ap length (sym wire)
      ∙ length-slice q.bytes 4 (n + 1)

  length-middle : length middle.bytes ≡ length q.bytes
  length-middle = length-splice q.bytes 4 (c ∷ cs)

  abbrev left : ℕ
  left = subtract_bytes c cs

  abbrev checked : List ℕ
  checked = splice middle.bytes 4 (left ∷ [])

  room : 5 + n ≤ length q.bytes
  room = h.room

  parts : (get_or middle.bytes 4 0 ≡ c) × (slice middle.bytes 5 n ≡ cs)
  parts = cons_split (get_or middle.bytes 4 0) c (slice middle.bytes 5 n) cs (
      sym (slice-consed n middle.bytes)
      ∙ ap (slice middle.bytes 4) (sym length-clear)
      ∙ slice-splice_self q.bytes 4 (c ∷ cs) (omega (arith, length-clear, room)))

  decryption-computed : decryption static_key q ≡ some (left == 0, record q { bytes = checked })
  unfolding decryption
  decryption-computed = rw (read_start q header_size (omega (arith, room))) (
      rw
        (
          input_size-headed q n key static_key h,
          read_at q 4 (n + 1) (omega (arith, room)),
          h.key_field,
          wire,
          clear,
        )
        (rw (write_at q 4 (c ∷ cs) (omega (arith, room, length-clear))) (
          rw
            (
              read_at middle 4 1 (omega (arith, length-middle, room)),
              payload_size-headed q n key h,
              read_at middle header_size n (omega (arith, length-middle, room)),
              parts.0,
              parts.1,
            )
            (rw (write_at middle 4 (left ∷ []) (omega (arith, length-middle, room)))))))

  slice-checked : slice checked 4 (n + 1) ≡ left ∷ cs
  slice-checked =
      slice-consed n checked
      ∙ ap₂ ◌∷◌
          (get_or-splice_inside middle.bytes 4 (left ∷ []) 0 0 (omega (arith, length-middle, room))
            (omega arith))
          (slice-splice_above middle.bytes 4 (left ∷ []) 5 n (omega arith) ∙ parts.1)

  -- It answers whether the checksum comes out as zero, and leaves what came out in front of the
  -- deciphered body.
  pub decryption-answers :
      (b : List ℕ) × (decryption static_key q
        ≡ some (subtract_bytes c cs == 0, record q { bytes = b }))
      × (slice b 4 (n + 1) ≡ subtract_bytes c cs ∷ cs)
      × (length b ≡ length q.bytes)
  decryption-answers = (
    checked,
    decryption-computed,
    slice-checked,
    length-splice middle.bytes 4 (left ∷ []) ∙ length-middle,
  )
