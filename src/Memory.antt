-- ===== src/Memory.antt =====
-- The memory pool of core/src/hiw_std.c (`hiw_memory`), and the copy routines.
pub mod Overrun
pub mod Write
use highway.Prelude.{
  ℕ, zero, suc, ◌+◌, ◌-◌, Bool, true, false, [], ◌∷◌, Bytes, length, take, Option, none, some,
  Outcome, ret, fault, hang, ◌>>=◌, ltb, ◌==◌, if◌then◌else◌, ◌^◌,
}
use highway.Prelude.Int.{ℤ, pos, negsuc, ◌+ℤ◌, ltb_ℤ, leb_ℤ, eqb_ℤ}

-- `ptr` is given by the bytes of the block that it points at, so `end` is `length ptr`, and `pos`
-- by its distance from `ptr`.
pub record Memory : Type 0 where
  pub ptr : Bytes
  pub pos : ℕ
  pub resize_bytes : ℤ

unfoldable pub fixed_init : Bytes → Memory
fixed_init buf = record { ptr = buf; pos = 0; resize_bytes = negsuc 0 }

-- `malloc` gives the block that `hiw_malloc` returns: that one stops the program rather than
-- return NULL. `none` is the answer `false`.
unfoldable pub dynamic_init : (ℕ → Bytes) → ℤ → Option Memory
dynamic_init malloc (pos zero) = none
dynamic_init malloc (pos (suc n)) =
    some (record { ptr = malloc (suc n); pos = 0; resize_bytes = pos (suc n) })
dynamic_init malloc (negsuc n) = none

pub release : Memory → Memory
release m =
    if eqb_ℤ m.resize_bytes (negsuc 0)
    then m
    else if length m.ptr == 0
    then m
    else record { ptr = []; pos = 0; resize_bytes = pos 0 }

unfoldable pub resize_enabled : Memory → Bool
resize_enabled m = leb_ℤ m.resize_bytes (pos 0)

pub resize_disabled : Memory → Memory
resize_disabled m = record m { resize_bytes = pos 0 }

unfoldable pub size : Memory → ℕ
size m = m.pos

pub capacity : Memory → ℕ
capacity m = length m.ptr

abbrev pub int_min : ℤ
int_min = negsuc (2 ^ 31 - 1)

-- `while (new_capacity < required_bytes) new_capacity += m->resize_bytes;` for some rounds. A sum
-- below `INT_MIN` is undefined.
pub grow : ℕ → ℤ → ℕ → ℤ → Outcome ℤ
grow zero step required new_capacity = hang
grow (suc rounds) step required new_capacity =
    let next = new_capacity +ℤ step in
    let rest = grow rounds step required next in
    if ltb_ℤ new_capacity (pos required)
    then (if ltb_ℤ next int_min then fault else rest)
    else ret new_capacity

-- Every round moves `new_capacity` by at least one, unless it never moves: this many reach the
-- end of the `int`s.
pub grow_rounds : ℕ
grow_rounds = 2 ^ 33

-- What `realloc` made of the block.
moved : Memory → Option Bytes → Bool × Memory
moved m none = (false, m)
moved m (some block) = (true, record m { ptr = block })

-- `realloc` answers `none` for NULL. The assertions are compiled out (`NDEBUG`).
pub resize : (Bytes → ℤ → Option Bytes) → Memory → ℕ → Outcome (Bool × Memory)
unfolding resize_enabled capacity moved
resize realloc m required_bytes =
    if resize_enabled m
    then (do
      new_capacity ←
          grow grow_rounds m.resize_bytes required_bytes (pos (capacity m) +ℤ m.resize_bytes)
      ret (moved m (realloc m.ptr new_capacity)))
    else ret (false, m)

unfoldable pub reset : Memory → Memory
reset m = record m { pos = 0 }

-- The pointer that is returned, by its distance from `ptr`; `none` is `NULL`.
unfoldable pub get : (Bytes → ℤ → Option Bytes) → Memory → ℕ → Outcome (Option ℕ × Memory)
unfolding size
get realloc m n =
    if ltb (length m.ptr) (m.pos + n)
    then (do
      (resized, m') ← resize realloc m (size m + n)
      ret (if resized then (none, m') else (some m'.pos, record m' { pos = m'.pos + n })))
    else ret (some m.pos, record m { pos = m.pos + n })

-- `*dest = *src` for `src`'s bytes in turn, `dest` at `i`: a write outside the block is undefined.
unfoldable pub write : Bytes → ℕ → Bytes → Outcome Bytes
write block i [] = ret block
write [] i (c ∷ src) = fault
write (b ∷ block) (suc i) (c ∷ src) = do rest ← write block i (c ∷ src); ret (b ∷ rest)
write (b ∷ block) zero (c ∷ src) = do rest ← write block zero src; ret (c ∷ rest)

-- `hiw_std_mempy` to offset `dest` of a block, with its result; `src` holds the `n` bytes.
unfoldable pub mempy : Bytes → Bytes → ℕ → ℕ → Outcome (Option ℕ × Bytes)
unfolding write
mempy src block dest capacity =
    if length src == 0
    then ret (some dest, block)
    else if capacity == 0
    then ret (none, block)
    else do
      let n = if ltb capacity (length src) then capacity else length src
      block' ← write block dest (take n src)
      ret (some (dest + n), block')

-- `hiw_std_copy`
unfoldable pub copy : Bytes → Bytes → ℕ → ℕ → Outcome (Option ℕ × Bytes)
unfolding mempy
copy src block dest capacity = mempy src block dest capacity

-- `hiw_std_copy0` to offset `dest` of a block, with its result; `src` is read up to its zero. A
-- capacity that is negative is as good as none.
pub copy0 : Bytes → Bytes → ℕ → ℕ → Outcome (ℕ × Bytes)
unfolding write
copy0 src block dest zero = ret (dest, block)
copy0 [] block dest (suc capacity) = fault
copy0 (c ∷ src) block dest (suc capacity) =
    let rest = (do block' ← write block dest (c ∷ []); copy0 src block' (suc dest) capacity) in
    if c == 0 then ret (dest, block) else rest
