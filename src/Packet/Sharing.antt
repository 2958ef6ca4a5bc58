-- ===== src/Packet/Sharing.antt =====
-- The count of references against the handles there are.
use mathlib.Core.Bool.{not, ◌&&◌}
use chatting_server_single.Common.{
  ℕ, ◌+◌, ◌^◌, ◌≤◌, ◌<◌, ◌≡◌, refl, ap, ◌∙◌, arith, List, ◌∷◌, some, ◌⊎◌, inl, inr, false, ◌==◌,
  if◌then◌else◌, replaced, weight, weight-replaced, weight-le, weight-ge,
}
use chatting_server_single.Serializer.Memory.{inc_reference_counter, dec_reference_counter}
use chatting_server_single.Packet.{Heap, acquire, release, destroy, copy, assign}

abbrev names : ℕ → ℕ → ℕ
names b a = if a == b then 1 else 0

-- How many of the handles `0 .. n - 1` name `b`.
abbrev pub sharers : ℕ → (ℕ → ℕ) → ℕ → ℕ
sharers b handles n = weight (names b) handles n

abbrev pub counter : Heap → ℕ → ℕ
counter h b = (h.buffers b).reference_counter

abbrev pub Counted : Heap → (ℕ → ℕ) → ℕ → Type 0
Counted h handles n = (b : ℕ) → 0 < b → counter h b ≡ sharers b handles n

-- `a` goes back to the pool if it is a serializer that no handle names.
abbrev pub unshared : ℕ → (ℕ → ℕ) → ℕ → List ℕ → List ℕ
unshared a handles n freed = if not (a == 0) && (sharers a handles n == 0) then a ∷ freed else freed

counter-acquire :
    (b x : ℕ) (h : Heap)
    → 0 < b
    → counter h x + 1 < 2 ^ 32
    → counter (acquire b 1 h).0 x ≡ counter h x + names x b
unfolding acquire inc_reference_counter
counter-acquire b x h there small = ground arith

freed-acquire : (b : ℕ) (h : Heap) → (acquire b 1 h).0.freed ≡ h.freed
unfolding acquire
freed-acquire b h = ground arith

counter-release :
    (a x : ℕ) (h : Heap)
    → 0 < x
    → names x a ≤ counter h x
    → counter h x < 2 ^ 32
    → counter (release a 1 h).0 x + names x a ≡ counter h x
unfolding release dec_reference_counter
counter-release a x h there enough small = ground arith

freed-release :
    (a : ℕ) (h : Heap)
    → (release a 1 h).0.freed
      ≡ (if not (a == 0) && (counter (release a 1 h).0 a == 0) then a ∷ h.freed else h.freed)
unfolding release dec_reference_counter
freed-release a h = ground arith

-- The count decides what goes back to the pool, so the handles decide it.
freed-Counted :
    (a : ℕ) (h : Heap) (handles : ℕ → ℕ) (n : ℕ)
    → Counted (release a 1 h).0 handles n
    → (release a 1 h).0.freed ≡ unshared a handles n h.freed
freed-Counted a h handles n counted = elim (eq_or_pos a) [
  | inl null ↦ rw (freed-release a h, null) refl
  | inr there ↦ rw (freed-release a h, counted a there) refl
]
  where
    eq_or_pos : (k : ℕ) → (k ≡ 0) ⊎ (0 < k)
    eq_or_pos k = ground arith

module _ (h : Heap) (handles : ℕ → ℕ) (n : ℕ) (counted : Counted h handles n) (few : n + 1 < 2 ^ 32)
    (i : ℕ) (here : i < n) where
  names-le : (x a : ℕ) → names x a ≤ 1
  names-le x a = ground arith

  sharers-le : (x : ℕ) → sharers x handles n ≤ n
  sharers-le x = weight-le (names x) (names-le x) handles n

  -- Handle `i` gives its reference back after a reference of `b` was taken, or none.
  given_back :
      (b : ℕ) (h' : Heap)
      → ((x : ℕ) → 0 < x → counter h' x ≡ sharers x handles n + names x b)
      → Counted (release (handles i) 1 h').0 (replaced handles i b) n
  given_back b h' taken x there = omega (
    arith,
    taken x there,
    names-le x b,
    sharers-le x,
    weight-replaced (names x) handles i b n here,
    weight-ge (names x) handles i n here,
    counter-release (handles i) x h' there
        (omega (arith, taken x there, weight-ge (names x) handles i n here))
        (omega (arith, taken x there, names-le x b, sharers-le x)),
  )

  taken_lem :
      (b x : ℕ) → 0 < b → 0 < x → counter (acquire b 1 h).0 x ≡ sharers x handles n + names x b
  taken_lem b x named there =
      counter-acquire b x h named (omega (arith, counted x there, sharers-le x))
      ∙ ap (λ c. c + names x b) (counted x there)

  destroyed : Counted (destroy (handles i) h) (replaced handles i 0) n
  unfolding destroy
  destroyed = given_back 0 h (λ x there. counted x there ∙ none_named x there)
    where
      none_named : (x : ℕ) → 0 < x → sharers x handles n ≡ sharers x handles n + names x 0
      none_named x there = ground arith

  assigned :
      (b : ℕ) → 0 < b → Counted (release (handles i) 1 (acquire b 1 h).0).0 (replaced handles i b) n
  assigned b named = given_back b (acquire b 1 h).0 (λ x. taken_lem b x named)

  copied : (b : ℕ) → 0 < b → handles i ≡ 0 → Counted (acquire b 1 h).0 (replaced handles i b) n
  copied b named null x there =
      taken_lem b x named there
      ∙ omega (arith, weight-replaced (names x) handles i b n here, nothing)
    where
      nothing : names x (handles i) ≡ 0
      nothing = ground arith

-- If the count of every serializer is the number of the handles that name it, fewer than
-- `2 ^ 32 - 1`, this stays so when handle `i` is destroyed, when handle `j`, which is not null, is
-- assigned to it, and when a copy of `j` takes the place of the null handle `k`. A serializer goes
-- back to the pool exactly if it was that of handle `i` and no handle names it any more, also where
-- `i` and `j` are the same handle or name the same serializer; a copy hands none back.
pub sharing_lem :
    (h : Heap) (handles : ℕ → ℕ) (n i j k : ℕ)
    → Counted h handles n
    → n + 1 < 2 ^ 32
    → i < n
    → k < n
    → 0 < handles j
    → handles k ≡ 0
    → (Counted (destroy (handles i) h) (replaced handles i 0) n
        × ((destroy (handles i) h).freed ≡ unshared (handles i) (replaced handles i 0) n h.freed))
      × ((h' : Heap) × (assign (handles i) (handles j) h ≡ some (h', handles j))
          × Counted h' (replaced handles i (handles j)) n
          × (h'.freed ≡ unshared (handles i) (replaced handles i (handles j)) n h.freed))
      × ((h' : Heap) × (copy (handles j) h ≡ some (h', handles j))
          × Counted h' (replaced handles k (handles j)) n
          × (h'.freed ≡ h.freed))
unfolding destroy assign copy
sharing_lem h handles n i j k counted few here free named null =
    let b = handles j in
    let after = assigned h handles n counted few i here b named in
    let gone = destroyed h handles n counted few i here in
    (
      (gone, freed-Counted (handles i) h (replaced handles i 0) n gone),
      (
        (release (handles i) 1 (acquire b 1 h).0).0,
        rw (lt→not_null b named) refl,
        after,
        freed-Counted (handles i) (acquire b 1 h).0 (replaced handles i b) n after
            ∙ ap (unshared (handles i) (replaced handles i b) n) (freed-acquire b h),
      ),
      (
        (acquire b 1 h).0,
        rw (lt→not_null b named) refl,
        copied h handles n counted few k free b named null,
        freed-acquire b h,
      ),
    )
  where
    lt→not_null : (b : ℕ) → 0 < b → (b == 0) ≡ false
    lt→not_null b p = ground arith
