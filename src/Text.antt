-- ===== src/Text.antt =====
-- The string views of core/src/hiw_std.c: comparison, lines, trimming, suffixes and splitting.
pub mod Compare
pub mod Seek
pub mod Trim
pub mod Suffix
pub mod Split
pub mod Ends
use highway.Prelude.{
  ℕ, zero, suc, ◌+◌, ◌-◌, Bool, true, false, ◌&&◌, ◌||◌, not, List, [], ◌∷◌, Bytes, length, take,
  drop, get_elem?, Outcome, ret, fault, access, ◌>>=◌, ltb, leb, ◌==◌, if◌then◌else◌, ◌≤◌,
}

-- `hiw_string`: `begin` is a pointer, given by the bytes from it to the end of the object that it
-- points into. `length` is an `int` that is not negative. The pointer of an empty view is not read.
pub record HiwString : Type 0 where
  pub begin : Bytes
  pub length : ℕ

-- The `length` bytes of the view lie inside the object.
abbrev pub IsView : HiwString → Type 0
IsView s = s.length ≤ length s.begin

-- The text of a view.
abbrev pub bytes : HiwString → Bytes
bytes s = take s.length s.begin

-- `(hiw_string){.length = 0}`
abbrev pub empty : HiwString
empty = record { begin = []; length = 0 }

-- `hiw_string_set`
abbrev pub string_set : Bytes → ℕ → HiwString
string_set s len = record { begin = s; length = len }

-- `hiw_string_const`
abbrev pub string_const : Bytes → HiwString
string_const s = string_set s (length s)

unfoldable pub isspace : ℕ → Bool
isspace c = c == b'\r' || (c == b'\n' || (c == b' ' || c == b'\t'))

-- `*(p + i)`
abbrev pub at : Bytes → ℕ → Outcome ℕ
at p i = access (get_elem? p i)

-- `for (; c1 != end; c1++, c2++) if (*c1 != *c2) return false;`
pub cmp_loop : ℕ → Bytes → Bytes → Outcome Bool
cmp_loop zero c1 c2 = ret true
cmp_loop (suc n) (a ∷ c1) (b ∷ c2) =
    let rest = cmp_loop n c1 c2 in if a == b then rest else ret false
cmp_loop (suc n) _ _ = fault

unfoldable pub cmp : HiwString → HiwString → Outcome Bool
unfolding cmp_loop
cmp s1 s2 = if s1.length == s2.length then cmp_loop s1.length s1.begin s2.begin else ret false

unfoldable pub cmpc : HiwString → Bytes → ℕ → Outcome Bool
unfolding cmp_loop
cmpc s1 c n = if s1.length == n then cmp_loop n s1.begin c else ret false

-- `for (; c != end && *c != delim; ++c);`: how far `c` gets in the `n` bytes from `c` on.
pub seek : ℕ → ℕ → Bytes → Outcome ℕ
seek delim zero c = ret 0
seek delim (suc n) [] = fault
seek delim (suc n) (x ∷ c) =
    let rest = (do k ← seek delim n c; ret (suc k)) in if x == delim then ret 0 else rest

-- The answer, and what `dest` holds after it.
unfoldable pub readline : HiwString → HiwString → Outcome (Bool × HiwString)
unfolding seek
readline str dest = if str.length == 0 then ret (false, dest) else do
  k ← seek b'\n' str.length str.begin
  ret (if k == str.length then (false, string_set str.begin 0) else (true, string_set str.begin k))

-- `while (end != start && hiw_string_isspace(*--end));`, with `end` counted from `start`.
pub rtrim_loop : Bytes → ℕ → Outcome ℕ
unfolding isspace
rtrim_loop start zero = ret 0
rtrim_loop start (suc end) =
    let rest = rtrim_loop start end in do c ← at start end; if isspace c then rest else ret end

-- What both trims do from the right trim on: `start` is where the text begins, `n` its length.
pub rtrim_from : Bytes → ℕ → Outcome HiwString
unfolding rtrim_loop isspace
rtrim_from start n = do
  end ← rtrim_loop start n
  c ← at start end
  if isspace c then ret empty else ret (string_set start (end + 1))

unfoldable pub rtrim : HiwString → Outcome HiwString
unfolding rtrim_from
rtrim str = if str.length == 0 then ret empty else rtrim_from str.begin str.length

-- `while (start != end && hiw_string_isspace(*start)) start++;`: the view that is left.
pub ltrim_loop : ℕ → Bytes → Outcome HiwString
unfolding isspace
ltrim_loop zero start = ret (string_set start 0)
ltrim_loop (suc n) [] = fault
ltrim_loop (suc n) (c ∷ start) =
    let rest = ltrim_loop n start in
    if isspace c then rest else ret (string_set (c ∷ start) (suc n))

unfoldable pub trim : HiwString → Outcome HiwString
unfolding ltrim_loop rtrim_from
trim str =
    if str.length == 0
    then ret empty
    else do left ← ltrim_loop str.length str.begin; rtrim_from left.begin left.length

-- `while (end != start && *--end != delim);`
pub suffix_loop : Bytes → ℕ → ℕ → Outcome ℕ
suffix_loop start delim zero = ret 0
suffix_loop start delim (suc end) =
    let rest = suffix_loop start delim end in
    do c ← at start end; if c == delim then ret end else rest

pub suffix : HiwString → ℕ → Outcome HiwString
unfolding suffix_loop
suffix str delim = if leb str.length 1 then ret empty else do
  end ← suffix_loop str.begin delim str.length
  c ← at str.begin 0
  if end == 0 && c == delim
      then ret str
      else ret (string_set (drop end str.begin) (str.length - end))

-- The rounds of the loop: `k` is `n - 1 - num`, and `len` bytes are left from `start` on.
pub split_loop : ℕ → ℕ → ℕ → Bytes → Outcome (List HiwString)
unfolding seek
split_loop delim zero len start = ret (string_set start len ∷ [])
split_loop delim (suc k) len start = do
  j ← seek delim len start
  let rest = do
    parts ← split_loop delim k (len - (j + 1)) (drop (j + 1) start)
    ret (string_set start j ∷ parts)
  if j == len then ret (string_set start len ∷ []) else rest

-- The parts that are written to `dest`, whose number is the result. `n` is the room in `dest`.
unfoldable pub split : HiwString → ℕ → ℕ → Outcome (List HiwString)
unfolding split_loop
split str delim n =
    if str.length == 0 || n == 0 then ret [] else split_loop delim (n - 1) str.length str.begin
