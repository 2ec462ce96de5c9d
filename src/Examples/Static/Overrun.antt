-- ===== src/Examples/Static/Overrun.antt =====
-- A file that the memory of the cache in examples/static has no room for.
use highway.Prelude.{
  ℕ, zero, suc, ◌+◌, ◌≤◌, ◌<◌, ◌≡◌, refl, ap, ◌∙◌, Bool, false, ◌||◌, List, [], ◌∷◌, ◌++◌, Lacks,
  Bytes, length, Option, some, true, fault, >>=-ret, >>=-fault, arith, ◌==◌, ==-ne, if_false,
}
use highway.Prelude.Int.{ℤ, pos, ◌≤ℤ◌}
use highway.Memory.{write}
use highway.Memory.Overrun.{get_no_room_dynamic}
use highway.Memory.Write.{overwrite, length-overwrite}
use highway.Examples.Static.{OpenFile, Cache, static_cache_add, open_content, read_content}
use highway.Examples.Static.Pages.{space}
use highway.Examples.Static.Spelled.{file_of}
use highway.Examples.Static.Copied.{with_path}
use highway.Examples.Static.Added.{Caching, static_cache_add-opens}

write-overruns :
    (block : Bytes) (i : ℕ) (src : Bytes)
    → 0 < length src
    → length block < i + length src
    → write block i src ≡ fault
unfolding write
write-overruns block i [] some_byte long = absurd (omega (arith, some_byte))
write-overruns [] i (c ∷ src) some_byte long = refl
write-overruns (b ∷ block) (suc i) (c ∷ src) some_byte long =
    >>=-fault _ _ (write-overruns block i (c ∷ src) some_byte (omega (arith, long)))
write-overruns (b ∷ block) zero (c ∷ src) some_byte long =
    >>=-fault _ _ (write-overruns block zero src (omega (arith, long)) (omega (arith, long)))

module _ (realloc : Bytes → ℤ → Option Bytes) (fopen : Bytes → Option OpenFile)
    (grows : ℕ → Bool) where
  open_content-overruns :
      (cache : Cache) (uri text : Bytes)
      → pos 1 ≤ℤ cache.memory.resize_bytes
      → cache.memory.pos + length uri ≤ length cache.memory.ptr
      → length cache.memory.ptr < cache.memory.pos + length uri + length text
      → open_content realloc fopen grows
          (record cache { memory = with_path cache.memory uri })
          (some cache.memory.pos)
          (length uri)
          (some (record { content = text; readable = true }))
        ≡ fault
  unfolding open_content read_content
  open_content-overruns cache uri text step fits long =
      let m = cache.memory in
      let size = length-overwrite m.ptr m.pos uri fits in
      >>=-ret _ _ _ (
        get_no_room_dynamic realloc (with_path m uri) (length text) step
          (omega (arith, size, long)))
      ∙ if_false ((length text == 0) || false) _ _
          (ap (λ b. b || false) (==-ne (length text) 0 (omega (arith, fits, long))))
      ∙ >>=-fault _ _ (
          write-overruns (overwrite m.ptr m.pos uri) (m.pos + length uri) text
            (omega (arith, fits, long)) (omega (arith, size, long)))

  -- To add a file whose path fits the memory of the cache, but not with its bytes behind it, writes
  -- past the end of that memory, if its block is one that was allocated, and the file can be read.
  pub static_cache_add-overruns :
      (base : Bytes) (total : ℕ) (cache : Cache) (pages : List (Bytes × Bytes)) (uri text : Bytes)
      → Caching base total cache pages
      → pos 1 ≤ℤ cache.memory.resize_bytes
      → Lacks 0 (base ++ uri)
      → fopen (base ++ uri) ≡ some (record { content = text; readable = true })
      → space pages + length uri ≤ total
      → total < space pages + length uri + length text
      → static_cache_add realloc fopen grows cache (file_of (base ++ uri)) ≡ fault
  static_cache_add-overruns base total cache pages uri text h step no_zero opens fits long =
      static_cache_add-opens realloc fopen grows cache base uri _ h.dir
        (omega (arith, h.used, h.capacity, fits)) no_zero opens
      ∙ open_content-overruns cache uri text step (omega (arith, h.used, h.capacity, fits))
          (omega (arith, h.used, h.capacity, long))
