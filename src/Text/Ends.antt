-- ===== src/Text/Ends.antt =====
-- The rounds of the text routines of core/src/hiw_std.c.
use highway.Prelude.{
  ℕ, zero, suc, ◌+◌, ◌-◌, ◌≤◌, ◌<◌, ◌≡◌, true, false, ◌||◌, [], ◌∷◌, Bytes, drop, ◌&&◌, leb,
  get_elem?, Outcome, ret, ◌>>=◌, arith, ◌==◌, if◌then◌else◌, Ends, Any, >>=-Ends, if-Ends,
  access-Ends,
}
use highway.Text.{
  HiwString, string_set, empty, isspace, at, cmp_loop, cmpc, seek, readline, rtrim_loop, rtrim_from,
  rtrim, ltrim_loop, trim, split_loop, split, suffix_loop, suffix,
}

cmp_loop-Ends : (n : ℕ) (p q : Bytes) → Ends Any (cmp_loop n p q)
unfolding cmp_loop
cmp_loop-Ends zero p q = tt
cmp_loop-Ends (suc n) (a ∷ p) (b ∷ q) =
    if-Ends Any (a == b) (cmp_loop n p q) (ret false) (λ t. cmp_loop-Ends n p q) (λ t. tt)
cmp_loop-Ends (suc n) (a ∷ p) [] = tt
cmp_loop-Ends (suc n) [] q = tt

pub cmpc-Ends : (s : HiwString) (c : Bytes) (n : ℕ) → Ends Any (cmpc s c n)
unfolding cmpc
cmpc-Ends s c n =
    if-Ends Any (s.length == n) (cmp_loop n s.begin c) (ret false) (λ t. cmp_loop-Ends n s.begin c)
      (λ t. tt)

seek-Ends : (d n : ℕ) (p : Bytes) → Ends (λ k. k ≤ n) (seek d n p)
unfolding seek
seek-Ends d zero p = omega arith
seek-Ends d (suc n) [] = tt
seek-Ends d (suc n) (x ∷ p) =
    if-Ends (λ k. k ≤ suc n) (x == d) (ret 0) (do k ← seek d n p; ret (suc k)) (λ t. omega arith)
      (λ t.
        >>=-Ends (λ k. k ≤ n) (λ k. k ≤ suc n) (seek d n p) (λ k. ret (suc k)) (seek-Ends d n p)
          (λ k h. omega arith))

-- A line that is found is shorter than the view, which holds its newline too.
pub readline-Ends :
    (s dest : HiwString) → Ends (λ r. r.0 ≡ true → r.1.length < s.length) (readline s dest)
unfolding readline
readline-Ends s dest =
    if-Ends (λ r. r.0 ≡ true → r.1.length < s.length) (s.length == 0) (ret (false, dest))
      (do
        k ← seek b'\n' s.length s.begin
        ret (if k == s.length then (false, string_set s.begin 0) else (true, string_set s.begin k)))
      (λ t e. cc)
      (λ t.
        >>=-Ends (λ k. k ≤ s.length) (λ r. r.0 ≡ true → r.1.length < s.length)
          (seek b'\n' s.length s.begin)
          (λ k.
            ret (
              if k == s.length
              then (false, string_set s.begin 0)
              else (true, string_set s.begin k)))
          (seek-Ends b'\n' s.length s.begin) (λ k h. ground arith))

rtrim_loop-Ends : (start : Bytes) (n : ℕ) → Ends Any (rtrim_loop start n)
unfolding rtrim_loop
rtrim_loop-Ends start zero = tt
rtrim_loop-Ends start (suc end) =
    >>=-Ends Any Any (at start end) (λ c. if isspace c then rtrim_loop start end else ret end)
      (access-Ends (get_elem? start end))
      (λ c h.
        if-Ends Any (isspace c) (rtrim_loop start end) (ret end) (λ t. rtrim_loop-Ends start end)
          (λ t. tt))

rtrim_from-Ends : (start : Bytes) (n : ℕ) → Ends Any (rtrim_from start n)
unfolding rtrim_from
rtrim_from-Ends start n =
    >>=-Ends Any Any (rtrim_loop start n)
      (λ end. do
        c ← at start end
        if isspace c then ret empty else ret (string_set start (end + 1)))
      (rtrim_loop-Ends start n)
      (λ end h.
        >>=-Ends Any Any (at start end)
          (λ c. if isspace c then ret empty else ret (string_set start (end + 1)))
          (access-Ends (get_elem? start end))
          (λ c h'.
            if-Ends Any (isspace c) (ret empty) (ret (string_set start (end + 1))) (λ t. tt)
              (λ t. tt)))

pub rtrim-Ends : (s : HiwString) → Ends Any (rtrim s)
unfolding rtrim
rtrim-Ends s =
    if-Ends Any (s.length == 0) (ret empty) (rtrim_from s.begin s.length) (λ t. tt)
      (λ t. rtrim_from-Ends s.begin s.length)

ltrim_loop-Ends : (n : ℕ) (start : Bytes) → Ends Any (ltrim_loop n start)
unfolding ltrim_loop
ltrim_loop-Ends zero start = tt
ltrim_loop-Ends (suc n) [] = tt
ltrim_loop-Ends (suc n) (c ∷ start) =
    if-Ends Any (isspace c) (ltrim_loop n start) (ret (string_set (c ∷ start) (suc n)))
      (λ t. ltrim_loop-Ends n start) (λ t. tt)

pub trim-Ends : (s : HiwString) → Ends Any (trim s)
unfolding trim
trim-Ends s =
    if-Ends Any (s.length == 0) (ret empty)
      (do left ← ltrim_loop s.length s.begin; rtrim_from left.begin left.length) (λ t. tt)
      (λ t.
        >>=-Ends Any Any (ltrim_loop s.length s.begin) (λ left. rtrim_from left.begin left.length)
          (ltrim_loop-Ends s.length s.begin) (λ left h. rtrim_from-Ends left.begin left.length))

split_loop-Ends : (d k len : ℕ) (start : Bytes) → Ends Any (split_loop d k len start)
unfolding split_loop
split_loop-Ends d zero len start = tt
split_loop-Ends d (suc k) len start =
    >>=-Ends (λ j. j ≤ len) Any (seek d len start)
      (λ j. if j == len then ret (string_set start len ∷ []) else do
        parts ← split_loop d k (len - (j + 1)) (drop (j + 1) start)
        ret (string_set start j ∷ parts))
      (seek-Ends d len start)
      (λ j h.
        if-Ends Any (j == len) (ret (string_set start len ∷ []))
          (do
            parts ← split_loop d k (len - (j + 1)) (drop (j + 1) start)
            ret (string_set start j ∷ parts))
          (λ t. tt)
          (λ t.
            >>=-Ends Any Any (split_loop d k (len - (j + 1)) (drop (j + 1) start))
              (λ parts. ret (string_set start j ∷ parts))
              (split_loop-Ends d k (len - (j + 1)) (drop (j + 1) start)) (λ parts h'. tt)))

pub split-Ends : (s : HiwString) (d n : ℕ) → Ends Any (split s d n)
unfolding split
split-Ends s d n =
    if-Ends Any (s.length == 0 || n == 0) (ret []) (split_loop d (n - 1) s.length s.begin) (λ t. tt)
      (λ t. split_loop-Ends d (n - 1) s.length s.begin)

suffix_loop-Ends : (start : Bytes) (d n : ℕ) → Ends Any (suffix_loop start d n)
unfolding suffix_loop
suffix_loop-Ends start d zero = tt
suffix_loop-Ends start d (suc end) =
    >>=-Ends Any Any (at start end) (λ c. if c == d then ret end else suffix_loop start d end)
      (access-Ends (get_elem? start end))
      (λ c h.
        if-Ends Any (c == d) (ret end) (suffix_loop start d end) (λ t. tt)
          (λ t. suffix_loop-Ends start d end))

pub suffix-Ends : (s : HiwString) (d : ℕ) → Ends Any (suffix s d)
unfolding suffix
suffix-Ends s d =
    let cut : ℕ → Outcome HiwString = λ end. ret (string_set (drop end s.begin) (s.length - end)) in
    let whole : ℕ → Outcome HiwString =
      λ end. (do c ← at s.begin 0; if end == 0 && c == d then ret s else cut end) in
    if-Ends Any (leb s.length 1) (ret empty) (do end ← suffix_loop s.begin d s.length; whole end)
      (λ t. tt)
      (λ t.
        >>=-Ends Any Any (suffix_loop s.begin d s.length) whole
          (suffix_loop-Ends s.begin d s.length)
          (λ end h.
            >>=-Ends Any Any (at s.begin 0) (λ c. if end == 0 && c == d then ret s else cut end)
              (access-Ends (get_elem? s.begin 0))
              (λ c h'. if-Ends Any (end == 0 && c == d) (ret s) (cut end) (λ e. tt) (λ e. tt))))
