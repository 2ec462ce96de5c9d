-- ===== src/Tests/Numbers.antt =====
-- The conversions, the memory pool and the copies, applied to concrete inputs.
use highway.Prelude.{◌≡◌, ◌≢◌, ◌++◌, Bytes, length, codes, some, none, ret, arith}
use highway.Prelude.Int.{pos, negsuc}
use highway.Text.{string_set}
use highway.Number.{uitoc, toui, toi, finish, isdigit}
use highway.Number.RoundTrip.{toui-uitoc}
use highway.Number.Signed.{toi-value}
use highway.Memory.{Memory, get}
use highway.Memory.Overrun.{get_room, get_no_room_fixed}

toui-uitoc_example :
    (text : Bytes) × (uitoc 10 4096 ≡ some text)
    × (toui (string_set (text ++ codes "\r\n") (length text)) ≡ ret (finish (codes "\r\n") 4096))
toui-uitoc_example = toui-uitoc 10 4096 (codes "\r\n") (omega arith) (omega arith) (omega arith)

toi-value_example :
    (toi (string_set (codes "42;") 2) ≡ ret (finish (codes ";") (pos 42)))
    × (toi (string_set (codes "-42;") 3) ≡ ret (finish (codes ";") (negsuc 41)))
unfolding isdigit
toi-value_example = toi-value (codes "42") (codes ";") (ground arith) (omega arith)

-- A block of four bytes, of which two are handed out.
abbrev fixed_block : Memory
fixed_block = record { ptr = codes "abcd"; pos = 2; resize_bytes = negsuc 0 }

gets_last_two : get (λ block n. none) fixed_block 2 ≡ ret (some 2, record fixed_block { pos = 4 })
gets_last_two = get_room (λ block n. none) fixed_block 2 (omega arith)

get_no_room_fixed_example : get (λ block n. none) fixed_block 3 ≢ ret (none, fixed_block)
get_no_room_fixed_example =
    get_no_room_fixed (λ block n. none) fixed_block 3 (none, fixed_block) (omega arith)
      (omega arith)
