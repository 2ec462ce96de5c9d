-- ===== src/Examples/Static/Copied.antt =====
-- The content of a file, behind its path in the memory of a cache.
use highway.Prelude.{
  ℕ, ◌+◌, ◌%◌, ◌≤◌, ◌<◌, ◌≡◌, ◌≢◌, sym, ap, ◌∙◌, inl, inr, Bool, true, false, ◌||◌, [], ◌∷◌, ◌++◌,
  Bytes, length, take, drop, Option, some, ret, >>=-ret, arith, length-append, take-append-drop,
  ltb, leb, le→ltb, lt→leb, ◌==◌, ==-ne, ==_iff, if_false, Bool-cases,
}
use highway.Prelude.Int.{ℤ}
use highway.Text.{string_set}
use highway.Memory.{Memory, mempy}
use highway.Memory.Overrun.{get_room}
use highway.Memory.Write.{overwrite, write-overwrite, length-overwrite, mempy-appended}
use highway.Mimetypes.{from_filename, mimetype_text}
use highway.Mimetypes.Table.{type_of_name, from_filename-type_of_name}
use highway.Examples.Static.{
  OpenFile, Content, Cache, content_capacity, copy_path, put_content, add_content, read_content,
  open_content,
}
use highway.Examples.Static.Regions.{region-overwrite, region-written}

-- The content that is added.
abbrev pub added : ℕ → Bytes → Bytes → Content
added place uri text = record {
  uri_at = some place;
  uri_length = length uri;
  mime_type = mimetype_text (type_of_name uri);
  memory_at = place + length uri;
  size = length text;
}

-- The memory with the path.
abbrev pub with_path : Memory → Bytes → Memory
with_path m uri = record m { ptr = overwrite m.ptr m.pos uri; pos = m.pos + length uri }

abbrev pub with_text : Memory → Bytes → Bytes → Memory
with_text m uri text = record m {
  ptr = overwrite (overwrite m.ptr m.pos uri) (m.pos + length uri) text;
  pos = m.pos + length uri + length text;
}

pub copy_path-copies :
    (m : Memory) (src uri : Bytes)
    → m.pos + length uri ≤ length m.ptr
    → length uri ≤ length src
    → take (length uri) src ≡ uri
    → copy_path (record m { pos = m.pos + length uri }) (some m.pos) src (length uri)
      ≡ ret (with_path m uri)
unfolding copy_path
copy_path-copies m src uri room long same =
    if_false (ltb (length src) (length uri)) _ _ (le→ltb _ _ long)
    ∙ >>=-ret _ _ (some (m.pos + length uri), overwrite m.ptr m.pos uri)
        (ap (λ t. mempy t m.ptr m.pos (length uri)) same ∙ mempy-appended uri m.ptr m.pos room)

mime_of_path :
    (block : Bytes) (place : ℕ) (uri : Bytes)
    → take (length uri) (drop place block) ≡ uri
    → from_filename (string_set (drop place block) (length uri))
      ≡ ret (mimetype_text (type_of_name uri))
mime_of_path block place uri same =
    ap (λ b. from_filename (string_set b (length uri)))
      (sym (take-append-drop (length uri) (drop place block))
        ∙ ap (λ t. t ++ drop (length uri) (drop place block)) same)
    ∙ from_filename-type_of_name uri (drop (length uri) (drop place block))

-- The URI behind both writes.
pub path_kept :
    (m : Memory) (uri text : Bytes)
    → m.pos + length uri + length text ≤ length m.ptr
    → take (length uri) (drop m.pos (with_text m uri text).ptr) ≡ uri
path_kept m uri text room =
    region-overwrite (length uri) m.pos (overwrite m.ptr m.pos uri) (m.pos + length uri) text
      (omega arith) (omega (arith, length-overwrite m.ptr m.pos uri (omega arith)))
    ∙ region-written m.ptr m.pos uri (omega arith)

module _ (realloc : Bytes → ℤ → Option Bytes) (fopen : Bytes → Option OpenFile) (grows : ℕ → Bool)
    (grow : (n : ℕ) → grows n ≡ true) where
  -- The array has room for a content.
  add_content-room :
      (cache : Cache) (c : Content)
      → length cache.contents ≤ cache.room
      → cache.room % content_capacity ≡ 0
      → (room : ℕ) × (add_content realloc fopen grows cache c
          ≡ ret (true, record cache { contents = cache.contents ++ c ∷ []; room = room }))
        × (length (cache.contents ++ c ∷ []) ≤ room)
        × (room % content_capacity ≡ 0)
  unfolding add_content put_content
  add_content-room cache c fits steps =
      let count = length cache.contents in
      let size = length-append cache.contents (c ∷ []) in
      elim (Bool-cases (count % content_capacity == 0)) [
        | inl t ↦
            let even : count % content_capacity ≡ 0 = (==_iff _ 0).0 t in
            (
              count + content_capacity,
              rw (t, grow (count + content_capacity))
                  (if_false (leb (count + content_capacity) count) _ _ (lt→leb _ _ (omega arith))),
              omega arith,
              omega arith,
            )
        | inr f ↦
            let odd : count % content_capacity ≢ 0 = λ e. ground (arith, f, e) in
            let below : count < cache.room = omega (arith, odd, fits, steps) in
            (
              cache.room,
              rw f (if_false (leb cache.room count) _ _ (lt→leb _ _ below)),
              omega (arith, size, below),
              steps,
            )
      ]

  -- The content behind its path.
  pub open_content-adds :
      (cache : Cache) (uri text : Bytes)
      → cache.memory.pos + length uri + length text ≤ length cache.memory.ptr
      → 0 < length text
      → length cache.contents ≤ cache.room
      → cache.room % content_capacity ≡ 0
      → (room : ℕ) × (open_content realloc fopen grows
            (record cache { memory = with_path cache.memory uri })
            (some cache.memory.pos)
            (length uri)
            (some (record { content = text; readable = true }))
          ≡ ret (
            true,
            record cache {
              memory = with_text cache.memory uri text;
              contents = cache.contents ++ added cache.memory.pos uri text ∷ [];
              room = room;
            },
          ))
        × (length (cache.contents ++ added cache.memory.pos uri text ∷ []) ≤ room)
        × (room % content_capacity ≡ 0)
  unfolding open_content read_content
  open_content-adds cache uri text fits some_byte few steps =
      let m = cache.memory in
      let size = length-overwrite m.ptr m.pos uri (omega arith) in
      let (room, adds, few', steps') =
        add_content-room (record cache { memory = with_text m uri text }) (added m.pos uri text) few
          steps in
      (
        room,
        >>=-ret _ _ _ (get_room realloc (with_path m uri) (length text) (omega (arith, size)))
            ∙ if_false ((length text == 0) || false) _ _
                (ap (λ b. b || false) (==-ne (length text) 0 (omega arith)))
            ∙ >>=-ret _ _ _ (
                write-overwrite (overwrite m.ptr m.pos uri) (m.pos + length uri) text
                  (omega (arith, size)))
            ∙ >>=-ret _ _ _
                (mime_of_path (with_text m uri text).ptr m.pos uri (path_kept m uri text fits))
            ∙ adds,
        few',
        steps',
      )
