-- ===== src/Number.antt =====
-- The conversions of core/src/hiw_std.c between text and `unsigned int` or `int`.
pub mod Mirror
pub mod RoundTrip
pub mod Signed
use highway.Prelude.{
  ℕ, zero, suc, ◌+◌, ◌-◌, ◌*◌, ◌/◌, ◌%◌, ◌^◌, Bool, true, false, ◌&&◌, List, [], ◌∷◌, ◌++◌, Bytes,
  length, set, get_or, codes, Option, none, some, Outcome, ret, fault, ◌>>=◌, ltb, leb, ◌==◌,
  if◌then◌else◌,
}
use highway.Prelude.Int.{ℤ, pos, sub_ℕ}
use highway.Text.{HiwString, string_set}

-- `isdigit`
unfoldable pub isdigit : ℕ → Bool
isdigit c = leb b'0' c && leb c b'9'

-- Where a conversion stops, and what it stores through its pointer (`none`: nothing).
pub record Parsed (A : Type 0) : Type 0 where
  pub rest : HiwString
  pub stored : Option A

abbrev pub stop : {A : Type 0} → Bytes → ℕ → Parsed A
stop s n = record { rest = string_set s n; stored = none }

abbrev pub finish : {A : Type 0} → Bytes → A → Parsed A
finish s a = record { rest = string_set s 0; stored = some a }

abbrev pub uint_mod : ℕ
uint_mod = 2 ^ 32

abbrev pub int_max : ℕ
int_max = 2 ^ 31 - 1

-- `num` is an `unsigned int`: the arithmetic wraps.
pub ctoui_loop : ℕ → Bytes → ℕ → Outcome (Parsed ℕ)
unfolding isdigit
ctoui_loop zero s num = ret (finish s num)
ctoui_loop (suc n) [] num = fault
ctoui_loop (suc n) (c ∷ s) num =
    let rest = ctoui_loop n s ((num * 10 % uint_mod + (c - b'0')) % uint_mod) in
    if isdigit c then rest else ret (stop (c ∷ s) (suc n))

pub ctoui : Bytes → ℕ → Outcome (Parsed ℕ)
unfolding ctoui_loop
ctoui str n = ctoui_loop n str 0

-- `num * multiplier`
abbrev pub signed : Bool → ℕ → ℤ
signed true num = sub_ℕ 0 num
signed false num = pos num

-- `num` is an `int`: an overflow is undefined. The flag says that `multiplier` is -1.
pub ctoi_loop : Bool → ℕ → Bytes → ℕ → Outcome (Parsed ℤ)
unfolding isdigit
ctoi_loop minus zero s num = ret (finish s (signed minus num))
ctoi_loop minus (suc n) [] num = fault
ctoi_loop minus (suc n) (c ∷ s) num =
    let rest = ctoi_loop minus n s (num * 10 + (c - b'0')) in
    if isdigit c
    then (if ltb int_max (num * 10 + (c - b'0')) then fault else rest)
    else ret (stop (c ∷ s) (suc n))

pub ctoi : Bytes → ℕ → Outcome (Parsed ℤ)
unfolding ctoi_loop
ctoi str zero = ctoi_loop false zero str 0
ctoi [] (suc n) = fault
ctoi (c ∷ str) (suc n) =
    if c == b'-' then ctoi_loop true n str 0 else ctoi_loop false (suc n) (c ∷ str) 0

pub toui : HiwString → Outcome (Parsed ℕ)
unfolding ctoui
toui str = ctoui str.begin str.length

pub toi : HiwString → Outcome (Parsed ℤ)
unfolding ctoi
toi str = ctoi str.begin str.length

-- `base[d]`
pub digit : ℕ → ℕ
digit d = get_or (codes "0123456789") d 0

-- `for (; ptr != end && val; ++ptr) { *ptr = base[val % 10]; val /= 10; }`: what is written.
pub digit_loop : ℕ → ℕ → Bytes
unfolding digit
digit_loop zero val = []
digit_loop (suc n) val =
    let rest = digit_loop n (val / 10) in if val == 0 then [] else digit (val % 10) ∷ rest

-- `tmp = dest[i]; dest[i] = dest[j]; dest[j] = tmp;`
pub swap : Bytes → ℕ → ℕ → Bytes
swap dest i j = set (set dest i (get_or dest j 0)) j (get_or dest i 0)

-- `for (i = i; i < i + k; ++i)`, over the `written` bytes of `dest`.
pub mirror_loop : ℕ → ℕ → ℕ → Bytes → Bytes
unfolding swap
mirror_loop zero i written dest = dest
mirror_loop (suc k) i written dest = mirror_loop k (i + 1) written (swap dest i (written - i - 1))

pub mirror : Bytes → Bytes
unfolding mirror_loop
mirror dest = mirror_loop (length dest / 2) 0 (length dest) dest

-- The bytes that are written to the `n` bytes of `dest`, up to the pointer that is returned;
-- `none` is `NULL`.
unfoldable pub uitoc : ℕ → ℕ → Option Bytes
unfolding digit_loop mirror
uitoc n val =
    if n == 0
    then none
    else if val == 0
    then some (digit 0 ∷ [])
    else some (mirror (digit_loop n val))
