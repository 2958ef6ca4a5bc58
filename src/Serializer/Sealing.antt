-- ===== src/Serializer/Sealing.antt =====
-- `setHeader`, `encryption` and `decryption` of serializer.h: the five bytes of `networkHeader`
-- (define.h), packed, stand at `buffer_ptr`: code, size (two bytes), random key, checksum.
pub mod Checksum
pub mod Opened
pub mod Headed
pub mod Received
pub mod Checked
use chatting_server_single.Common.{
  ℕ, ◌+◌, ◌-◌, ◌*◌, ◌%◌, ◌/◌, ◌^◌, Bool, List, [], ◌∷◌, Option, none, some, ◌>>=◌, ltb, ◌==◌,
  if◌then◌else◌, u8, sub64, get_or, le_bytes, of_le_bytes, ℤ, pos, negsuc, pos_part, ◌+ℤ◌,
  pattern_of, int_of,
}
use chatting_server_single.Serializer.Memory.{Serializer, read_mem, write_mem, move_front}
use chatting_server_single.Serializer.Cipher.{encrypt_bytes, decrypt_bytes}

abbrev pub header_size : ℕ
header_size = 5

-- `networkHeader(size, key, checkSum)` in memory.
abbrev pub header_bytes : ℤ → ℕ → ℕ → List ℕ
header_bytes n key check =
    0x77 ∷ pattern_of 16 n % 2 ^ 8 ∷ pattern_of 16 n / 2 ^ 8 ∷ key ∷ check ∷ []

-- `setHeader(size, key, checkSum)`, just below the head.
pub set_header3 : ℤ → ℕ → ℕ → Serializer → Option Serializer
set_header3 n key check s = do
  s' ← write_mem s (sub64 s.head_ptr header_size) (header_bytes n key check)
  some (move_front s' (negsuc 4)).0

-- The sum of bytes in a `char`.
unfoldable pub sum_bytes : ℕ → List ℕ → ℕ
sum_bytes c [] = c
sum_bytes c (x ∷ xs) = sum_bytes (u8 (c + x)) xs

pub subtract_bytes : ℕ → List ℕ → ℕ
subtract_bytes c [] = c
subtract_bytes c (x ∷ xs) = subtract_bytes (u8 (c + 2 ^ 8 - x)) xs

-- What lies between the header and the tail, as an `int`.
abbrev pub payload_size : Serializer → ℤ
payload_size s = int_of (pos (sub64 (sub64 s.tail_ptr s.buffer_ptr) header_size))

unfoldable pub set_header : ℕ → Serializer → Option Serializer
unfolding sum_bytes
set_header key s = do
  payload ← read_mem s (s.buffer_ptr + header_size) (pos_part (payload_size s))
  s' ← write_mem s s.buffer_ptr (header_bytes (payload_size s) key (sum_bytes 0 payload))
  some (move_front s' (negsuc 4)).0

-- The number that a `short` stands for.
abbrev pub signed16 : ℕ → ℤ
signed16 w = if ltb w (2 ^ 15) then pos w else negsuc (2 ^ 16 - w - 1)

-- The bytes that the cipher runs over: the checksum, and as many more as the header says.
abbrev pub input_size : List ℕ → ℕ
input_size header = pos_part (signed16 (get_or header 1 0 + 2 ^ 8 * get_or header 2 0) +ℤ pos 1)

unfoldable pub encryption : ℕ → Serializer → Option Serializer
encryption static_key s = do
  header ← read_mem s s.buffer_ptr header_size
  target ← read_mem s (s.buffer_ptr + 4) (input_size header)
  write_mem s (s.buffer_ptr + 4) (encrypt_bytes (get_or header 3 0) static_key 0 0 0 target)

-- True if the checksum comes out as zero. It is the checksum of what lies before the tail.
pub decryption : ℕ → Serializer → Option (Bool × Serializer)
unfolding subtract_bytes
decryption static_key s = do
  header ← read_mem s s.buffer_ptr header_size
  target ← read_mem s (s.buffer_ptr + 4) (input_size header)
  s' ← write_mem s (s.buffer_ptr + 4) (decrypt_bytes (get_or header 3 0) static_key 0 0 0 target)
  check ← read_mem s' (s.buffer_ptr + 4) 1
  payload ← read_mem s' (s.buffer_ptr + header_size) (pos_part (payload_size s))
  let left = subtract_bytes (get_or check 0 0) payload
  s'' ← write_mem s' (s.buffer_ptr + 4) (left ∷ [])
  some (left == 0, s'')
