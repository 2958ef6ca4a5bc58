-- ===== src/Csv/RoundTrip.antt =====
-- What is written is read back.
use chatting_server_single.Common.{
  ℕ, ◌≡◌, ◌⊎◌, inl, inr, refl, sym, ap, ◌∙◌, arith, List, [], ◌∷◌, ◌++◌, append_assoc, append-nil,
  Bool, true, false, ◌||◌, ◌==◌, Bool-cases,
}
use chatting_server_single.Csv.{
  comma, quote, newline, find, needs_quotes, doubled, write_field, write_fields, LogStructure,
  write_log,
}
use chatting_server_single.Csv.Reading.{Mode, at_start, plain, quoted, finished, Reader, read_line}

-- A field without quotes holds no newline.
abbrev pub Readable : List ℕ → Type 0
Readable text = (needs_quotes text ≡ true) ⊎ (find newline text ≡ false)

abbrev pub AllReadable : List (List ℕ) → Type 0
AllReadable [] = Unit
AllReadable (f ∷ fs) = Readable f × AllReadable fs

or_false : (a b : Bool) → (a || b) ≡ false → (a ≡ false) × (b ≡ false)
or_false a b h = ground arith

module _ (fields : List (List ℕ)) (rest : List ℕ) where
  abbrev ended : List ℕ → Reader
  ended text = record { mode = at_start; current = []; fields = fields ++ text ∷ [] }

  abbrev inside : Mode → List ℕ → Reader
  inside m text = record { mode = m; current = text; fields = fields }

  joined :
      (m : Mode) (current cs : List ℕ) (c : ℕ)
      → read_line rest (ended ((current ++ c ∷ []) ++ cs))
        ≡ read_line rest (ended (current ++ c ∷ cs))
  joined m current cs c = ap (λ t. read_line rest (ended t)) (append_assoc current (c ∷ []) cs)

  -- Inside of quotes.
  read-doubled :
      (text current : List ℕ)
      → read_line (doubled text ++ quote ∷ comma ∷ rest) (inside quoted current)
        ≡ read_line rest (ended (current ++ text))
  unfolding doubled read_line
  read-doubled [] current = ap (λ t. read_line rest (ended t)) (sym (append-nil current))
  read-doubled (c ∷ cs) current = elim (Bool-cases (c == quote)) [
    | inl e ↦ rw e (rw e (read-doubled cs (current ++ c ∷ []) ∙ joined quoted current cs c))
    | inr e ↦ rw e (rw e (read-doubled cs (current ++ c ∷ []) ∙ joined quoted current cs c))
  ]

  -- Outside of quotes, behind the first byte.
  read-plain :
      (text current : List ℕ)
      → find comma text ≡ false
      → find newline text ≡ false
      → read_line (text ++ comma ∷ rest) (inside plain current)
        ≡ read_line rest (ended (current ++ text))
  unfolding find read_line
  read-plain [] current h k = ap (λ t. read_line rest (ended t)) (sym (append-nil current))
  read-plain (c ∷ cs) current h k =
      let (h0, h1) = or_false (c == comma) (find comma cs) h in
      let (k0, k1) = or_false (c == newline) (find newline cs) k in
      rw (h0, k0) (read-plain cs (current ++ c ∷ []) h1 k1 ∙ joined plain current cs c)

  read-unquoted :
      (text : List ℕ)
      → find comma text ≡ false
      → find quote text ≡ false
      → find newline text ≡ false
      → read_line (text ++ comma ∷ rest) (inside at_start []) ≡ read_line rest (ended text)
  unfolding find read_line
  read-unquoted [] h q k = refl
  read-unquoted (c ∷ cs) h q k =
      let (h0, h1) = or_false (c == comma) (find comma cs) h in
      let (q0, q1) = or_false (c == quote) (find quote cs) q in
      let (k0, k1) = or_false (c == newline) (find newline cs) k in
      rw (h0, q0, k0) (read-plain cs (c ∷ []) h1 k1)

  -- A field and its comma.
  read-write_field :
      (text : List ℕ)
      → Readable text
      → read_line (write_field text ++ rest) (inside at_start []) ≡ read_line rest (ended text)
  unfolding write_field needs_quotes read_line
  read-write_field text h = elim (Bool-cases (needs_quotes text)) [
    | inl e ↦
        rw e (rw (append_assoc (doubled text) (quote ∷ comma ∷ []) rest) (read-doubled text []))
    | inr e ↦
        let (c, q) = or_false (find comma text) (find quote text) e in
        rw e (rw (append_assoc text (comma ∷ []) rest) (read-unquoted text c q (no_newline e h)))
  ]
    where
      no_newline : needs_quotes text ≡ false → Readable text → find newline text ≡ false
      no_newline e (inl k) = cc
      no_newline e (inr k) = k

read_line-finished :
    (rest : List ℕ) (fields : List (List ℕ))
    → read_line rest (record { mode = finished; current = []; fields = fields })
      ≡ (record { mode = finished; current = []; fields = fields }, rest)
unfolding read_line
read_line-finished [] fields = refl
read_line-finished (c ∷ cs) fields = refl

abbrev pub fresh_line : List (List ℕ) → Reader
fresh_line fields = record { mode = at_start; current = []; fields = fields }

abbrev pub whole_line : List (List ℕ) → Reader
whole_line fields = record { mode = finished; current = []; fields = fields ++ [] ∷ [] }

read-write_fields :
    (fs before : List (List ℕ)) (rest : List ℕ)
    → AllReadable fs
    → read_line (write_fields fs ++ rest) (fresh_line before) ≡ (whole_line (before ++ fs), rest)
unfolding write_fields read_line
read-write_fields [] before rest h =
    rw (append-nil before) (read_line-finished rest (before ++ [] ∷ []))
read-write_fields (f ∷ fs) before rest h =
    rw (append_assoc (write_field f) (write_fields fs) rest) (
      read-write_field before (write_fields fs ++ rest) f h.0
      ∙ read-write_fields fs (before ++ f ∷ []) rest h.1
      ∙ ap (λ gs. (whole_line gs, rest)) (append_assoc before (f ∷ []) fs))

abbrev pub fields_of : LogStructure → List (List ℕ)
fields_of l = l.time ∷ l.where_ ∷ l.level ∷ l.message ∷ []

unquoted :
    (text more : List ℕ)
    → needs_quotes text ≡ false
    → write_field text ++ more ≡ text ++ comma ∷ more
unfolding write_field
unquoted text more h = rw h (append_assoc text (comma ∷ []) more)

write_log-write_fields :
    (l : LogStructure)
    → needs_quotes l.time ≡ false
    → needs_quotes l.where_ ≡ false
    → needs_quotes l.level ≡ false
    → write_log l ≡ write_fields (fields_of l)
unfolding write_log write_fields
write_log-write_fields l t w v =
    let last = write_field l.message ++ newline ∷ [] in
    let tail = l.level ++ comma ∷ last in
    sym (
      unquoted l.time (write_field l.where_ ++ (write_field l.level ++ last)) t
      ∙ ap (λ m. l.time ++ comma ∷ m)
          (unquoted l.where_ (write_field l.level ++ last) w
            ∙ ap (λ m. l.where_ ++ comma ∷ m) (unquoted l.level last v)))

-- A line of fields, each with a comma, a quote or no newline in it, is read back whatever follows
-- it: the same fields, and an empty one behind the last comma. The same holds of a line of the log
-- whose time, place and level have neither comma nor quote.
pub csv_lem :
    (fs : List (List ℕ)) (l : LogStructure) (rest : List ℕ)
    → AllReadable fs
    → AllReadable (fields_of l)
    → needs_quotes l.time ≡ false
    → needs_quotes l.where_ ≡ false
    → needs_quotes l.level ≡ false
    → (read_line (write_fields fs ++ rest) (fresh_line []) ≡ (whole_line fs, rest))
      × (read_line (write_log l ++ rest) (fresh_line []) ≡ (whole_line (fields_of l), rest))
csv_lem fs l rest h k t w v = (
  read-write_fields fs [] rest h,
  ap (λ line. read_line (line ++ rest) (fresh_line [])) (write_log-write_fields l t w v)
      ∙ read-write_fields (fields_of l) [] rest k,
)
