-- ===== src/Csv/Tests.antt =====
-- Lines with fields that need quotes, and the theorem about them.
use chatting_server_single.Common.{ℕ, ◌≡◌, refl, inl, inr, List, [], ◌∷◌, ◌++◌}
use chatting_server_single.Csv.{
  find, needs_quotes, doubled, write_field, write_fields, LogStructure, write_log,
}
use chatting_server_single.Csv.Reading.{read_line}
use chatting_server_single.Csv.RoundTrip.{fresh_line, whole_line, fields_of, csv_lem}

-- a"b and c,d
abbrev fields : List (List ℕ)
fields = (97 ∷ 34 ∷ 98 ∷ []) ∷ (99 ∷ 44 ∷ 100 ∷ []) ∷ []

written :
    write_fields fields ≡ 34 ∷ 97 ∷ 34 ∷ 34 ∷ 98 ∷ 34 ∷ 44 ∷ 34 ∷ 99 ∷ 44 ∷ 100 ∷ 34 ∷ 44 ∷ 10 ∷ []
unfolding write_fields write_field needs_quotes find doubled
written = refl

abbrev line : LogStructure
line = record { time = 49 ∷ []; where_ = 50 ∷ []; level = []; message = 44 ∷ [] }

-- A newline in a field without quotes ends the line there.
newline_breaks :
    read_line (write_fields ((97 ∷ 10 ∷ 98 ∷ []) ∷ [])) (fresh_line [])
    ≡ (record (whole_line []) { fields = (97 ∷ []) ∷ [] }, 98 ∷ 44 ∷ 10 ∷ [])
unfolding read_line write_fields write_field needs_quotes find
newline_breaks = refl

csv_lem_example :
    (read_line (write_fields fields ++ 55 ∷ []) (fresh_line []) ≡ (whole_line fields, 55 ∷ []))
    × (read_line (write_log line ++ 55 ∷ []) (fresh_line [])
        ≡ (whole_line (fields_of line), 55 ∷ []))
unfolding needs_quotes find
csv_lem_example =
    csv_lem fields line (55 ∷ []) (inl refl, (inl refl, tt))
      (inr refl, (inr refl, (inr refl, (inl refl, tt)))) refl refl refl
