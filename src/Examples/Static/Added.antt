-- ===== src/Examples/Static/Added.antt =====
-- A file that `static_cache_add` adds.
use highway.Prelude.{
  ℕ, ◌+◌, ◌-◌, ◌%◌, ◌≤◌, ◌<◌, ◌≡◌, refl, ap, ◌∙◌, Bool, true, false, List, [], ◌∷◌, ◌++◌, Lacks,
  Bytes, length, drop, Option, some, Outcome, ret, ◌>>=◌, >>=-ret, arith, ap_at, append_assoc,
  length-append, take-length-append, drop-length-append, ltb, le→ltb, if_false,
}
use highway.Prelude.Int.{ℤ}
use highway.Memory
use highway.Memory.{Memory, mempy, write}
use highway.Memory.Overrun.{get_room}
use highway.Memory.Write.{overwrite, length-overwrite}
use highway.FileContent.{c_string}
use highway.Examples.Static.{
  OpenFile, Cache, content_capacity, copy_path, open_content, static_cache_add,
}
use highway.Examples.Static.Regions.{region-written}
use highway.Examples.Static.Pages.{AllHas, space, space-append, AllHas-overwrite, AllHas-append}
use highway.Examples.Static.Spelled.{file_of, c_string-path}
use highway.Examples.Static.Copied.{
  added, with_path, with_text, copy_path-copies, path_kept, open_content-adds,
}

-- A cache of a directory that holds these pages, in this order, and whose array has the room that
-- the number of its contents says.
pub record Caching (base : Bytes) (total : ℕ) (cache : Cache) (pages : List (Bytes × Bytes))
    : Type 0 where
  pub dir : cache.base_dir.length ≡ length base
  pub capacity : length cache.memory.ptr ≡ total
  pub used : cache.memory.pos ≡ space pages
  pub has : AllHas cache.memory cache.contents pages
  pub fits : length cache.contents ≤ cache.room
  pub steps : cache.room % content_capacity ≡ 0

module _ (realloc : Bytes → ℤ → Option Bytes) (fopen : Bytes → Option OpenFile)
    (grows : ℕ → Bool) where
  -- From the copy of the path on: `n` bytes.
  abbrev add_body : Cache → Bytes → ℕ → Outcome (Bool × Cache)
  add_body cache path n = Memory.get realloc cache.memory n >>= λ (copied_at, m).
      copy_path m copied_at (drop cache.base_dir.length (path ++ 0 ∷ [])) n >>= λ m'.
      c_string (path ++ 0 ∷ []) >>= λ name.
      open_content realloc fopen grows (record cache { memory = m' }) copied_at n (fopen name)

  -- A file whose path is below the directory, and fits the memory, comes to be opened.
  pub static_cache_add-opens :
      (cache : Cache) (base uri : Bytes) (file : Option OpenFile)
      → cache.base_dir.length ≡ length base
      → cache.memory.pos + length uri ≤ length cache.memory.ptr
      → Lacks 0 (base ++ uri)
      → fopen (base ++ uri) ≡ file
      → static_cache_add realloc fopen grows cache (file_of (base ++ uri))
        ≡ open_content realloc fopen grows
            (record cache { memory = with_path cache.memory uri })
            (some cache.memory.pos)
            (length uri)
            file
  unfolding static_cache_add
  static_cache_add-opens cache base uri file dir fits no_zero opens =
      let m = cache.memory in
      let path = base ++ uri in
      let whole = length-append base uri in
      let below : ltb (length path) cache.base_dir.length ≡ false =
        le→ltb _ _ (omega (arith, whole, dir)) in
      let n_is : length path - cache.base_dir.length ≡ length uri = omega (arith, whole, dir) in
      let behind : drop cache.base_dir.length (path ++ 0 ∷ []) ≡ uri ++ 0 ∷ [] =
        ap_at (λ k. drop k (path ++ 0 ∷ [])) cache.base_dir.length (length base) dir
        ∙ ap (drop (length base)) (append_assoc base uri (0 ∷ []))
        ∙ drop-length-append base (uri ++ 0 ∷ []) in
      if_false (ltb (length path) cache.base_dir.length) _ _ below
      ∙ ap_at (add_body cache path) (length path - cache.base_dir.length) (length uri) n_is
      ∙ >>=-ret _ _ _ (get_room realloc m (length uri) fits)
      ∙ >>=-ret _ _ _ (
          ap
            (λ src. copy_path (record m { pos = m.pos + length uri }) (some m.pos) src (length uri))
            behind
          ∙ copy_path-copies m (uri ++ 0 ∷ []) uri fits (omega (arith, length-append uri (0 ∷ [])))
              (take-length-append uri (0 ∷ [])))
      ∙ >>=-ret _ _ _ (c_string-path path [] no_zero)
      ∙ ap
          (open_content realloc fopen grows (record cache { memory = with_path m uri }) (some m.pos)
            (length uri))
          opens

module _ (realloc : Bytes → ℤ → Option Bytes) (fopen : Bytes → Option OpenFile) (grows : ℕ → Bool)
    (grow : (n : ℕ) → grows n ≡ true) where
  -- A file with a path below the directory and some bytes, that can be read, becomes the last page,
  -- if the memory has room for its path and its bytes.
  pub static_cache_add-Caching :
      (base : Bytes) (total : ℕ) (cache : Cache) (pages : List (Bytes × Bytes)) (uri text : Bytes)
      → Caching base total cache pages
      → Lacks 0 (base ++ uri)
      → fopen (base ++ uri) ≡ some (record { content = text; readable = true })
      → 0 < length text
      → space pages + length uri + length text ≤ total
      → (cache' : Cache) × (static_cache_add realloc fopen grows cache (file_of (base ++ uri))
          ≡ ret (true, cache'))
        × Caching base total cache' (pages ++ (uri, text) ∷ [])
  static_cache_add-Caching base total cache pages uri text h no_zero opens some_byte room =
      let m = cache.memory in
      let fits : m.pos + length uri + length text ≤ length m.ptr =
        omega (arith, h.used, h.capacity, room) in
      let (room', adds, few, steps) =
        open_content-adds realloc fopen grows grow cache uri text fits some_byte h.fits h.steps in
      let size1 = length-overwrite m.ptr m.pos uri (omega arith) in
      let size2 =
        length-overwrite (overwrite m.ptr m.pos uri) (m.pos + length uri) text
          (omega (arith, size1)) in
      (
        record cache {
          memory = with_text m uri text;
          contents = cache.contents ++ added m.pos uri text ∷ [];
          room = room';
        },
        static_cache_add-opens realloc fopen grows cache base uri _ h.dir (omega arith) no_zero
              opens
            ∙ adds,
        record {
          dir = h.dir;
          capacity = size2 ∙ size1 ∙ h.capacity;
          used = omega (arith, h.used, space-append pages ((uri, text) ∷ []));
          has =
              AllHas-append (with_text m uri text) cache.contents pages (added m.pos uri text) uri
                text
                (AllHas-overwrite (with_path m uri) cache.contents pages (m.pos + length uri) text
                  (m.pos + length uri + length text) (omega arith) (omega (arith, size1))
                  (omega arith)
                  (AllHas-overwrite m cache.contents pages m.pos uri (m.pos + length uri)
                    (omega arith) (omega arith) (omega arith) h.has))
                (record {
                  place = m.pos;
                  uri_at = refl;
                  uri_inside = omega arith;
                  uri_text = path_kept m uri text fits;
                  text_inside = omega arith;
                  text_text =
                      region-written (overwrite m.ptr m.pos uri) (m.pos + length uri) text
                        (omega (arith, size1));
                  mime = refl;
                });
          fits = few;
          steps = steps;
        },
      )
