-- ===== src/Network/Ids.antt =====
-- `MAKE_SESSION_ID` and `GET_INDEX`.
use chatting_server_single.Common.{
  ℕ, ◌+◌, ◌*◌, ◌%◌, ◌^◌, ◌<◌, ◌≡◌, ◌↔◌, ◌∙◌, ap, arith, u64, bit_or, bit_or_apart,
}
use chatting_server_single.Network.{make_session_id, get_index}

-- The low 16 bits are the index, the high ones the low 16 bits of the count.
pub make_session_id_sum :
    (count index : ℕ)
    → index < 2 ^ 16
    → make_session_id count index ≡ index + count % 2 ^ 16 * 2 ^ 48
unfolding make_session_id
make_session_id_sum count index h =
    ap (λ t. bit_or index t) high ∙ bit_or_apart 48 index (count % 2 ^ 16) (omega arith)
  where
    high : u64 (count * 2 ^ 48) ≡ count % 2 ^ 16 * 2 ^ 48
    high = omega arith

-- For indices below 2 ^ 16, the index is read back from a session's number, and two sessions have
-- the same number exactly if they have the same index and counts that agree modulo 2 ^ 16.
pub make_session_id_lem :
    (c d i j : ℕ)
    → i < 2 ^ 16
    → j < 2 ^ 16
    → (get_index (make_session_id c i) ≡ i)
      × ((make_session_id c i ≡ make_session_id d j) ↔ ((i ≡ j) × (c % 2 ^ 16 ≡ d % 2 ^ 16)))
unfolding get_index
make_session_id_lem c d i j p q =
    rw (make_session_id_sum c i p, make_session_id_sum d j q) (omega arith)
