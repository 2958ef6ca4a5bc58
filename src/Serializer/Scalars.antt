-- ===== src/Serializer/Scalars.antt =====
-- Scalars come back in the order in which they were written.
use chatting_server_single.Common.{
  ℕ, ◌+◌, ◌-◌, ◌^◌, ◌≤◌, ◌<◌, min, ◌≡◌, refl, sym, ap, ◌∙◌, arith, List, [], ◌∷◌, ◌++◌,
  append_assoc, append-nil, map, some, length, length-append, slice, le_bytes, length-le_bytes,
  of_le_bytes-le_bytes, length-slice,
}
use chatting_server_single.Serializer.{push, write_scalar, read_scalar, write_fields, read_fields}
use chatting_server_single.Serializer.Memory.{Serializer, Block, size, useable_size}
use chatting_server_single.Serializer.Invariant.{IsValid, sizes, read_mem_lem, move_front_pos}
use chatting_server_single.Serializer.Contents.{
  contents, length-contents, push_lem, advanced-IsValid, contents-advanced,
}

-- Equal lists that begin with parts of one length begin with the same part.
append_cancel :
    (xs xs' : List ℕ) {ys ys' : List ℕ}
    → length xs ≡ length xs'
    → xs ++ ys ≡ xs' ++ ys'
    → (xs ≡ xs') × (ys ≡ ys')
append_cancel [] [] e h = (refl, h)
append_cancel [] (x ∷ xs') e h = absurd (omega arith)
append_cancel (x ∷ xs) [] e h = absurd (omega arith)
append_cancel (x ∷ xs) (x' ∷ xs') {ys} {ys'} e h =
    let (p, q) = append_cancel xs xs' {ys = ys} {ys' = ys'} (omega arith) (cc) in (cc, q)

pub nil_of_length : (xs : List ℕ) → length xs ≡ 0 → xs ≡ []
nil_of_length [] e = refl
nil_of_length (x ∷ xs) e = absurd (omega arith)

-- A scalar at the front of the contents is read, and the rest is left.
read_scalar_lem :
    (s : Serializer) (w v : ℕ) (rest : List ℕ)
    → IsValid s
    → v < (2 ^ 8) ^ w
    → contents s ≡ le_bytes w v ++ rest
    → (s' : Serializer) × (read_scalar w s ≡ some (v, s')) × (contents s' ≡ rest) × IsValid s'
unfolding read_scalar
read_scalar_lem s w v rest valid fits e = (
  record s { head_ptr = s.head_ptr + w },
  rw (
    read_mem_lem s s.head_ptr w (omega (arith, sizes valid))
        (omega (arith, enough, sizes valid, valid.block)),
    parts.0,
    of_le_bytes-le_bytes w v fits,
    move_front_pos s w valid enough,
  ),
  parts.1,
  (rw same at (advanced-IsValid s w valid)),
)
  where
    enough : w ≤ size s
    enough = omega (
      arith,
      length-contents s,
      ap length e,
      length-append (le_bytes w v) rest,
      length-le_bytes w v,
    )

    same : min w (size s) ≡ w
    same = omega (arith, enough)

    parts :
        (slice s.bytes (s.head_ptr - s.buffer_ptr) w ≡ le_bytes w v)
        × (contents (record s { head_ptr = s.head_ptr + w }) ≡ rest)
    parts =
        append_cancel (slice s.bytes (s.head_ptr - s.buffer_ptr) w) (le_bytes w v)
          (length-slice s.bytes (s.head_ptr - s.buffer_ptr) w ∙ sym (length-le_bytes w v))
          (sym (rw same at (contents-advanced s w valid)) ∙ e)

-- The bytes of a chain of scalars.
abbrev pub field_bytes : List (ℕ × ℕ) → List ℕ
field_bytes [] = []
field_bytes ((w, v) ∷ fs) = le_bytes w v ++ field_bytes fs

abbrev pub AllFit : List (ℕ × ℕ) → Type 0
AllFit [] = Unit
AllFit ((w, v) ∷ fs) = (v < (2 ^ 8) ^ w) × AllFit fs

pub write_scalar_lem :
    (blocks : List Block) (w v : ℕ) (s : Serializer)
    → write_scalar blocks w v s ≡ push blocks (le_bytes w v) s
unfolding write_scalar
write_scalar_lem blocks w v s = refl

-- Scalars written into the room that is left are appended, in order.
pub write_fields_room :
    (blocks : List Block) (fs : List (ℕ × ℕ)) (s : Serializer)
    → IsValid s
    → length (field_bytes fs) ≤ useable_size s
    → (s' : Serializer) × (write_fields blocks fs s ≡ some s')
      × (contents s' ≡ contents s ++ field_bytes fs)
      × (useable_size s' + length (field_bytes fs) ≡ useable_size s)
      × IsValid s'
unfolding write_fields
write_fields_room blocks [] s v room = (s, refl, sym (append-nil (contents s)), omega arith, v)
write_fields_room blocks ((w, x) ∷ fs) s v room =
    let (s1, e1, c1, u1, _, v1) = push_lem s (le_bytes w x) v (omega (arith, width)) blocks in
    let (s2, e2, c2, u2, v2) = write_fields_room blocks fs s1 v1 (omega (arith, width)) in
    (
      s2,
      rw (write_scalar_lem blocks w x s ∙ e1) e2,
      c2
          ∙ ap (λ l. l ++ field_bytes fs) c1
          ∙ append_assoc (contents s) (le_bytes w x) (field_bytes fs),
      omega (arith, width),
      v2,
    )
  where
    width : length (field_bytes ((w, x) ∷ fs)) ≡ length (le_bytes w x) + length (field_bytes fs)
    width = length-append (le_bytes w x) (field_bytes fs)

pub write_fields_lem :
    (blocks : List Block) (fs : List (ℕ × ℕ)) (s : Serializer)
    → IsValid s
    → length (field_bytes fs) ≤ useable_size s
    → (s' : Serializer) × (write_fields blocks fs s ≡ some s')
      × (contents s' ≡ contents s ++ field_bytes fs)
      × IsValid s'
write_fields_lem blocks fs s v room =
    let (s', e, held, _, v') = write_fields_room blocks fs s v room in (s', e, held, v')

-- Scalars at the front of the contents are read in that order.
pub read_fields_lem :
    (fs : List (ℕ × ℕ)) (s : Serializer) (rest : List ℕ)
    → IsValid s
    → AllFit fs
    → contents s ≡ field_bytes fs ++ rest
    → (s' : Serializer) × (read_fields (map (λ f. f.0) fs) s ≡ some (map (λ f. f.1) fs, s'))
      × (contents s' ≡ rest)
      × IsValid s'
unfolding read_fields
read_fields_lem [] s rest v h e = (s, refl, e, v)
read_fields_lem ((w, x) ∷ fs) s rest v h e =
    let (s1, e1, c1, v1) =
      read_scalar_lem s w x (field_bytes fs ++ rest) v h.0
        (e ∙ append_assoc (le_bytes w x) (field_bytes fs) rest) in
    let (s2, e2, c2, v2) = read_fields_lem fs s1 rest v1 h.1 c1 in (s2, rw e1 (rw e2), c2, v2)

-- Scalars that fit their widths, written into a valid empty serializer with room for them, are read
-- back with the values and in the order in which they were written, and nothing is left.
pub read_fields-write_fields :
    (blocks : List Block) (fs : List (ℕ × ℕ)) (s : Serializer)
    → IsValid s
    → size s ≡ 0
    → length (field_bytes fs) ≤ useable_size s
    → AllFit fs
    → (s' : Serializer) × (s'' : Serializer) × (write_fields blocks fs s ≡ some s')
      × (read_fields (map (λ f. f.0) fs) s' ≡ some (map (λ f. f.1) fs, s''))
      × (contents s'' ≡ [])
read_fields-write_fields blocks fs s v none_held room h =
    let (s1, e1, c1, v1) = write_fields_lem blocks fs s v room in
    let (s2, e2, c2, v2) =
      read_fields_lem fs s1 [] v1 h
        (c1 ∙ ap (λ l. l ++ field_bytes fs) empty ∙ sym (append-nil (field_bytes fs))) in
    (s1, s2, e1, e2, c2)
  where
    empty : contents s ≡ []
    empty = nil_of_length (contents s) (length-contents s ∙ none_held)
