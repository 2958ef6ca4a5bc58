-- ===== src/Csv.antt =====
-- The lines of the files that the monitoring tools write: `CSVstringify` of
-- lib/monitoringTools/profiler/profiler.cpp and of lib/monitoringTools/logger/logger.cpp. A text is
-- the list of its bytes.
mod Reading
mod RoundTrip
mod Tests
use chatting_server_single.Common.{ℕ, List, [], ◌∷◌, ◌++◌, Bool, false, ◌||◌, ◌==◌, if◌then◌else◌}

abbrev pub comma : ℕ
comma = 44

abbrev pub quote : ℕ
quote = 34

abbrev pub newline : ℕ
newline = 10

unfoldable pub find : ℕ → List ℕ → Bool
find c [] = false
find c (x ∷ xs) = x == c || find c xs

unfoldable pub needs_quotes : List ℕ → Bool
unfolding find
needs_quotes text = find comma text || find quote text

-- Each quote becomes two.
unfoldable pub doubled : List ℕ → List ℕ
doubled [] = []
doubled (c ∷ cs) = let rest = doubled cs in if c == quote then quote ∷ c ∷ rest else c ∷ rest

unfoldable pub write_field : List ℕ → List ℕ
unfolding needs_quotes doubled
write_field text =
    if needs_quotes text then quote ∷ (doubled text ++ quote ∷ comma ∷ []) else text ++ comma ∷ []

unfoldable pub write_fields : List (List ℕ) → List ℕ
unfolding write_field
write_fields [] = newline ∷ []
write_fields (f ∷ fs) = write_field f ++ write_fields fs

-- One line of the log; only the message is looked at.
pub record LogStructure : Type 0 where
  pub time : List ℕ
  pub where_ : List ℕ
  pub level : List ℕ
  pub message : List ℕ

unfoldable pub write_log : LogStructure → List ℕ
unfolding write_field
write_log l =
    l.time
    ++ (comma
        ∷ (l.where_ ++ (comma ∷ (l.level ++ (comma ∷ (write_field l.message ++ newline ∷ []))))))
