-- ===== src/Content/Messages.antt =====
-- A message reaches the neighbours.
use chatting_server_single.Common.{
  ℕ, ◌+◌, ◌*◌, ◌≤◌, ◌≡◌, refl, ap, ◌∙◌, arith, List, [], ◌∷◌, ◌++◌, lookup, length, some, le→leb,
  slice, length-slice, le_bytes,
}
use chatting_server_single.Serializer.{write_fields, write_scalar, set_string}
use chatting_server_single.Serializer.Memory.{Serializer}
use chatting_server_single.Serializer.Contents.{contents, push_lem, set_string_lem}
use chatting_server_single.Serializer.Scalars.{field_bytes, write_fields_room, write_scalar_lem}
use chatting_server_single.Content.{UserData, Content, Environment, sent, report, new_packet}
use chatting_server_single.Content.Jobs.{find_neighbor, send_message}
use chatting_server_single.Content.Invariant.{user_at_known}
use chatting_server_single.Content.Packets.{Ready, new_packet_lem}

-- The head of the packet, with the number of the account.
abbrev head_fields : UserData → List (ℕ × ℕ)
head_fields u = (2, 6) ∷ (8, u.account_no) ∷ []

-- What a message looks like on the wire.
abbrev pub message_bytes : UserData → ℕ → List ℕ → List ℕ
message_bytes u msg_len message =
    (((field_bytes (head_fields u) ++ u.name) ++ u.nickname) ++ le_bytes 2 msg_len)
    ++ slice message 0 (2 * msg_len)

module _ (env : Environment) (u : UserData) (msg_len : ℕ) (message : List ℕ)
    (held : 2 * msg_len ≤ length message)
    (ready : Ready env (12 + length u.name + length u.nickname + 2 * msg_len)) where
  -- The five parts one after the other.
  written_lem :
      (s : Serializer) × (s1 : Serializer) × (s2 : Serializer) × (s3 : Serializer)
      × (s4 : Serializer) × (s5 : Serializer) × (new_packet env ≡ s)
      × (write_fields env.blocks (head_fields u) s ≡ some s1)
      × (set_string u.name s1 ≡ some s2)
      × (set_string u.nickname s2 ≡ some s3)
      × (write_scalar env.blocks 2 msg_len s3 ≡ some s4)
      × (set_string (slice message 0 (2 * msg_len)) s4 ≡ some s5)
      × (contents s5 ≡ message_bytes u msg_len message)
  written_lem =
      let n = 12 + length u.name + length u.nickname + 2 * msg_len in
      let part = slice message 0 (2 * msg_len) in
      let (s, e, v, empty, room) = new_packet_lem env n ready in
      let (s1, e1, c1, u1, v1) = write_fields_room env.blocks (head_fields u) s v (omega arith) in
      let (s2, e2, c2, u2, v2) = set_string_lem s1 u.name v1 (omega arith) in
      let (s3, e3, c3, u3, v3) = set_string_lem s2 u.nickname v2 (omega arith) in
      let (s4, e4, c4, u4, _, v4) = push_lem s3 (le_bytes 2 msg_len) v3 (omega arith) env.blocks in
      let (s5, e5, c5, u5, v5) =
        set_string_lem s4 part v4 (omega (arith, length-slice message 0 (2 * msg_len))) in
      (
        s,
        s1,
        s2,
        s3,
        s4,
        s5,
        e,
        e1,
        e2,
        e3,
        write_scalar_lem env.blocks 2 msg_len s3 ∙ e4,
        e5,
        c5
            ∙ ap (λ l. l ++ part)
                (c4
                  ∙ ap (λ l. l ++ le_bytes 2 msg_len)
                      (c3
                        ∙ ap (λ l. l ++ u.nickname)
                            (c2
                              ∙ ap (λ l. l ++ u.name)
                                  (c1 ∙ ap (λ l. l ++ field_bytes (head_fields u)) empty)))),
      )

  -- A known user sends a message of `msg_len` characters that are there, where the pool's
  -- serializer has room for the packet and `findNeighbor` gives the neighbours: one packet goes to
  -- these, and it holds the number 6, the account, both names, the length and the characters;
  -- nothing else changes.
  pub send_message_lem :
      (id : ℕ) (c : Content) (ids : List ℕ)
      → lookup id c.user_map ≡ some (some u)
      → find_neighbor id c ≡ some ids
      → (p : Serializer) × (send_message env id msg_len message c ≡ some (report (sent ids p) c))
        × (contents p ≡ message_bytes u msg_len message)
  unfolding send_message
  send_message_lem id c ids known near =
      let (s, s1, s2, s3, s4, s5, e, e1, e2, e3, e4, e5, all) = written_lem in
      (
        s5,
        rw
            (
              user_at_known id c (some u) known,
              e,
              e1,
              e2,
              e3,
              e4,
              le→leb (2 * msg_len) (length message) held,
              e5,
              near,
            )
            refl,
        all,
      )
