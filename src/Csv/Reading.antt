-- ===== src/Csv/Reading.antt =====
-- How a program that reads such files takes a line apart: fields end with a comma, the line with a
-- newline; inside of quotes both stand for themselves, and two quotes for one.
use chatting_server_single.Common.{ℕ, List, [], ◌∷◌, ◌++◌, Bool, true, false, ◌==◌, if◌then◌else◌}
use chatting_server_single.Csv.{comma, quote, newline}

pub data Mode : Type 0 where
  at_start : Mode
  plain : Mode
  quoted : Mode
  closing : Mode
  finished : Mode
  broken : Mode

pub record Reader : Type 0 where
  pub mode : Mode
  pub current : List ℕ
  pub fields : List (List ℕ)

abbrev pub put : Mode → ℕ → Reader → Reader
put m c r = record r { mode = m; current = r.current ++ c ∷ [] }

abbrev pub end_field : Mode → Reader → Reader
end_field m r = record { mode = m; current = []; fields = r.fields ++ r.current ∷ [] }

-- A byte outside of quotes.
abbrev pub outside : ℕ → Reader → Reader → Reader
outside c r other =
    if c == comma
    then end_field at_start r
    else if c == newline
    then end_field finished r
    else other

abbrev pub read_byte : Mode → ℕ → Reader → Reader
read_byte at_start c r =
    if c == quote then record r { mode = quoted } else outside c r (put plain c r)
read_byte plain c r = outside c r (put plain c r)
read_byte quoted c r = if c == quote then record r { mode = closing } else put quoted c r
read_byte closing c r =
    if c == quote then put quoted c r else outside c r (record r { mode = broken })
read_byte finished c r = r
read_byte broken c r = r

abbrev pub is_finished : Mode → Bool
is_finished finished = true
is_finished _ = false

-- Bytes are read until the line ends; the others are left.
unfoldable pub read_line : List ℕ → Reader → Reader × List ℕ
read_line [] r = (r, [])
read_line (c ∷ cs) r =
    let rest = read_line cs (read_byte r.mode c r) in
    if is_finished r.mode then (r, c ∷ cs) else rest
