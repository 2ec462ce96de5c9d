-- ===== src/Memory/Overrun.antt =====
-- `hiw_memory_get` where the block has room, and where it has not.
use highway.Prelude.{
  ℕ, zero, suc, ◌+◌, ◌≤◌, ◌<◌, ◌≡◌, ◌≢◌, inl, inr, true, Bytes, length, Option, some, ret, arith,
  Bool-cases, le→ltb, le→leb, lt→leb, ltb→lt, lt→ltb, >>=-eq-ret,
}
use highway.Prelude.Int.{ℤ, pos, ◌+ℤ◌, ◌≤ℤ◌, ltb_ℤ, leb_ℤ, pos_part, neg_part, +ℤ_parts}
use highway.Memory.{Memory, int_min, grow, grow_rounds, resize, get, size, capacity}

-- With room, the bytes at the position are handed out.
pub get_room :
    (realloc : Bytes → ℤ → Option Bytes) (m : Memory) (n : ℕ)
    → m.pos + n ≤ length m.ptr
    → get realloc m n ≡ ret (some m.pos, record m { pos = m.pos + n })
unfolding get
get_room realloc m n h = rw (le→ltb (length m.ptr) (m.pos + n) h)

still_below :
    (c step : ℤ) (required : ℕ)
    → step ≤ℤ pos 0
    → ltb_ℤ c (pos required) ≡ true
    → ltb_ℤ (c +ℤ step) (pos required) ≡ true
still_below c step required hs hc = lt→ltb _ _ (omega (arith, +ℤ_parts c step, ltb→lt _ _ hc))

-- With a step that does not grow, the loop returns no value, whatever the rounds.
grow_stuck :
    (rounds : ℕ) (step : ℤ) (required : ℕ) (c r : ℤ)
    → step ≤ℤ pos 0
    → ltb_ℤ c (pos required) ≡ true
    → grow rounds step required c ≢ ret r
unfolding grow
grow_stuck zero step required c r hs hc = λ e. cc
grow_stuck (suc rounds) step required c r hs hc =
    rw hc (elim (Bool-cases (ltb_ℤ (c +ℤ step) int_min)) [
      | inl t ↦ rw t (λ e. cc)
      | inr t ↦
          rw t
            (grow_stuck rounds step required (c +ℤ step) r hs (still_below c step required hs hc))
    ])

-- A block that has no room and may be resized: `hiw_memory_resize_enabled` is true just where the
-- step is 0 or less, so the loop of `hiw_memory_resize` does not come to an end that C defines.
pub get_no_room_fixed :
    (realloc : Bytes → ℤ → Option Bytes) (m : Memory) (n : ℕ) (r : Option ℕ × Memory)
    → m.resize_bytes ≤ℤ pos 0
    → length m.ptr < m.pos + n
    → get realloc m n ≢ ret r
unfolding get resize capacity size
get_no_room_fixed realloc m n r hs h =
    let wants : ltb_ℤ (pos (capacity m) +ℤ m.resize_bytes) (pos (size m + n)) ≡ true =
      still_below (pos (capacity m)) m.resize_bytes (size m + n) hs
        (lt→ltb (capacity m + 0) (size m + n + 0) (omega arith)) in
    rw (lt→ltb _ _ h, enabled)
      λ e.
        let (resized, e', _) = >>=-eq-ret _ _ e in
        let (grown, e'', _) = >>=-eq-ret _ _ e' in
        grow_stuck grow_rounds m.resize_bytes (size m + n) (pos (capacity m) +ℤ m.resize_bytes)
          grown hs wants e''
  where
    enabled : leb_ℤ m.resize_bytes (pos 0) ≡ true
    enabled = le→leb _ _ hs

-- A heap block that has no room: it is not resized, and `n` bytes are handed out of which the last
-- lie outside it.
pub get_no_room_dynamic :
    (realloc : Bytes → ℤ → Option Bytes) (m : Memory) (n : ℕ)
    → pos 1 ≤ℤ m.resize_bytes
    → length m.ptr < m.pos + n
    → get realloc m n ≡ ret (some m.pos, record m { pos = m.pos + n })
unfolding get resize
get_no_room_dynamic realloc m n hs h =
    rw (
      lt→ltb _ _ h,
      lt→leb (pos_part m.resize_bytes + 0) (0 + neg_part m.resize_bytes) (omega arith),
    )
