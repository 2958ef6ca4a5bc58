-- ===== src/Serializer.antt =====
-- lib/IOCP netServer/serializer.h and serializer.cpp: the growing buffer that a packet is written
-- to and read from. Pointers are addresses, and `bytes` is the block at `buffer_ptr`; an access
-- outside that block is `none`. The blocks that the allocator hands out are arguments.
pub mod Memory
pub mod Cipher
pub mod Sealing
pub mod Invariant
pub mod Contents
pub mod Scalars
pub mod Resize
pub mod Skipped
pub mod Copy
mod Tests
use chatting_server_single.Common.{
  ℕ, ◌+◌, ◌*◌, ◌^◌, min, Bool, true, false, not, List, [], ◌∷◌, Option, none, some, ◌>>=◌, ◌>>◌,
  guard, ltb, leb, ◌==◌, if◌then◌else◌, u8, u32, u64, sub64, le_bytes, of_le_bytes, signed32,
  length, ℤ, pos, negsuc, pos_part, sub_ℕ, ◌+ℤ◌, leb_ℤ, max_ℤ, pattern_of, int_of,
}
use Memory.{Serializer, Block, read_mem, write_mem, size, useable_size, move_front, move_rear, grow}

-- `push` and each operator `<<` do the same with the bytes of their argument.
pub push : List Block → List ℕ → Serializer → Option Serializer
push blocks xs s = do
  s' ← grow blocks (length xs) s
  s'' ← write_mem s' s'.tail_ptr xs
  some (move_rear s'' (int_of (pos (length xs)))).0

-- The bytes handed over, and the serializer that is left.
pub pop : ℕ → Serializer → Option (List ℕ × Serializer)
pop n s = do
  let n' = if ltb (size s) n then size s else n
  out ← read_mem s s.head_ptr n'
  some (out, (move_front s (int_of (pos n'))).0)

pub peek : ℕ → Serializer → Option (List ℕ)
peek n s = read_mem s s.head_ptr (if ltb (size s) n then size s else n)

-- `operator <<` of a scalar of `w` bytes, and `operator >>`, which asks for no size.
pub write_scalar : List Block → ℕ → ℕ → Serializer → Option Serializer
unfolding push
write_scalar blocks w v s = push blocks (le_bytes w v) s

pub read_scalar : ℕ → Serializer → Option (ℕ × Serializer)
read_scalar w s = do out ← read_mem s s.head_ptr w; some (of_le_bytes out, (move_front s (pos w)).0)

pub write_bool : List Block → Bool → Serializer → Option Serializer
unfolding push
write_bool blocks v s = push blocks ((if v then 1 else 0) ∷ []) s

pub read_bool : Serializer → Option (Bool × Serializer)
unfolding read_scalar
read_bool s = do (temp, s') ← read_scalar 1 s; some (not (temp == 0), s')

-- A `std::string`: its length as an `int`, then its bytes; room is made for both at once.
pub write_string : List Block → List ℕ → Serializer → Option Serializer
write_string blocks text s = do
  s1 ← grow blocks (length text + 4) s
  s2 ← write_mem s1 s1.tail_ptr (le_bytes 4 (length text))
  let s3 = (move_rear s2 (pos 4)).0
  s4 ← write_mem s3 s3.tail_ptr text
  some (move_rear s4 (int_of (pos (length text)))).0

pub read_string : Serializer → Option (List ℕ × Serializer)
read_string s = do
  field ← read_mem s s.head_ptr 4
  let s' = (move_front s (pos 4)).0
  let n = of_le_bytes field
  text ← read_mem s' s'.head_ptr n
  some (text, (move_front s' (signed32 n)).0)

-- `setString` and `setWstring` with characters of one and of two bytes. `memcpy_s` refuses more
-- than the room that is left, and a refusal ends the program.
unfoldable pub set_string : List ℕ → Serializer → Option Serializer
set_string text s = do
  guard (leb (length text) (useable_size s))
  s' ← write_mem s s.tail_ptr text
  some (move_rear s' (int_of (pos (length text)))).0

-- `getString` and `getWstring` copy all that is left, into `n` bytes.
pub get_string : ℕ → Serializer → Option (List ℕ × Serializer)
get_string n s = do
  guard (leb (size s) n)
  text ← read_mem s s.head_ptr (size s)
  some (text, (move_front s (int_of (pos n))).0)

-- A chain `p << a << b << …` of scalars, each with its width, and a chain `p >> a >> b >> …`.
unfoldable pub write_fields : List Block → List (ℕ × ℕ) → Serializer → Option Serializer
write_fields blocks [] s = some s
write_fields blocks ((w, v) ∷ fs) s = write_scalar blocks w v s >>= λ s'. write_fields blocks fs s'

unfoldable pub read_fields : List ℕ → Serializer → Option (List ℕ × Serializer)
read_fields [] s = some ([], s)
read_fields (w ∷ ws) s =
    read_scalar w s >>= λ (v, s'). read_fields ws s' >>= λ (vs, s''). some (v ∷ vs, s'')
