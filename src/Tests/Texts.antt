-- ===== src/Tests/Texts.antt =====
-- The text routines, applied to concrete texts.
use highway.Prelude.{◌≡◌, [], ◌∷◌, codes, ret, arith}
use highway.Text.{HiwString, string_set, string_const, bytes, cmp, split}
use highway.Text.Compare.{Decides, cmp-Decides}
use highway.Text.Split.{Splits, split-join, split-Splits}

-- "GET /a HTTP" as a view that has more memory behind it.
abbrev line : HiwString
line = string_set (codes "GET /a HTTP\r\nHost") 11

abbrev word : HiwString
word = string_const (codes "GET")

cmp-Decides_example : Decides (cmp line word) (bytes line) (bytes word)
cmp-Decides_example = cmp-Decides line word (omega arith) (omega arith)

split-join_example :
    split (string_set (codes "a b c") 5) b' ' 3
    ≡ ret
        (string_set (codes "a b c") 1 ∷ string_set (codes "b c") 1 ∷ string_set (codes "c") 1 ∷ [])
split-join_example =
    split-join b' ' 2 (codes "a" ∷ codes "b" ∷ codes "c" ∷ []) [] (ground arith) (omega arith)

split-Splits_example : Splits b' ' 3 (bytes line) (split line b' ' 3)
split-Splits_example = split-Splits line b' ' 3 (omega arith) (omega arith) (omega arith)
