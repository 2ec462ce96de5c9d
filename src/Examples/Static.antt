-- ===== src/Examples/Static.antt =====
-- The example examples/static: a cache of the files in a directory (static_cache.c), and the servlet
-- function that answers from it (main.c).
pub mod Regions
pub mod Spelled
pub mod Pages
pub mod Copied
pub mod Added
pub mod Found
pub mod Serves
pub mod Sendable
pub mod EndToEnd
pub mod Overrun
pub mod Delivered
use highway.Prelude.{
  ◌*◌, ℕ, zero, suc, ◌+◌, ◌-◌, ◌%◌, Bool, true, false, ◌||◌, not, List, [], ◌∷◌, ◌++◌, Bytes, codes,
  length, take, drop, Option, none, some, Outcome, ret, fault, ◌>>=◌, ltb, leb, ◌==◌, if◌then◌else◌,
}
use highway.Prelude.Int.{ℤ, pos}
use highway.Text.{HiwString, string_set, string_const, cmp}
use highway.Memory
use highway.Memory.{Memory, dynamic_init, mempy, write}
use highway.Mimetypes.{text_plain, mimetype_text, from_filename}
use highway.FileContent.{
  TraverseError, success, not_found, path_len, aborted, Entry, File, c_string, traverse,
}
use highway.Env.{Env}
use highway.Response.{set_status_code, set_content_length, set_content_type}
use highway.Response.Send.{write_body_raw}
use highway.Servlet.{Exchange, Servlet}

-- A file as `fopen` opens it: its bytes, and whether `fread` reads them.
pub record OpenFile : Type 0 where
  pub content : Bytes
  pub readable : Bool

-- `static_content`. A pointer into the cache's memory is its distance from the start; `none` is NULL.
pub record Content : Type 0 where
  pub uri_at : Option ℕ
  pub uri_length : ℕ
  pub mime_type : HiwString
  pub memory_at : ℕ
  pub size : ℕ

-- `static_cache`, with the number of contents that its array has room for.
pub record Cache : Type 0 where
  pub base_dir : HiwString
  pub memory : Memory
  pub contents : List Content
  pub room : ℕ

-- `cache_content_capacity`
abbrev pub content_capacity : ℕ
content_capacity = 64

-- The view of a URI in the memory.
abbrev pub uri_view : Memory → Option ℕ → ℕ → HiwString
uri_view m none n = string_set [] n
uri_view m (some p) n = string_set (drop p m.ptr) n

-- `hiw_std_mempy` of a path to the memory.
pub copy_path : Memory → Option ℕ → Bytes → ℕ → Outcome Memory
copy_path m none src n = ret m
copy_path m (some p) src n =
    if ltb (length src) n
    then fault
    else do (end, block) ← mempy (take n src) m.ptr p n; ret (record m { ptr = block })

-- The write to the array of contents.
pub put_content : Cache → Content → Outcome (Bool × Cache)
put_content cache c =
    if leb cache.room (length cache.contents)
    then fault
    else ret (true, record cache { contents = cache.contents ++ c ∷ [] })

-- The answer of the traversal.
abbrev pub kept_on_success : TraverseError → Cache → Option Cache
kept_on_success success cache = some cache
kept_on_success not_found cache = none
kept_on_success path_len cache = none
kept_on_success aborted cache = none

-- `fopen` answers `none` for NULL; `grows` tells whether `realloc` gives an array of that many
-- contents.
module _ (realloc : Bytes → ℤ → Option Bytes) (fopen : Bytes → Option OpenFile)
    (grows : ℕ → Bool) where
  -- From the test of the number of contents on.
  pub add_content : Cache → Content → Outcome (Bool × Cache)
  unfolding put_content
  add_content cache c =
      let count = length cache.contents in
      if count % content_capacity == 0
      then (if grows (count + content_capacity)
          then put_content (record cache { room = count + content_capacity }) c
          else ret (false, cache))
      else put_content cache c

  -- From `fread` on, into a buffer or NULL. What a read that fails leaves in the buffer is not used.
  pub read_content : Cache → Option ℕ → ℕ → OpenFile → Option ℕ → Outcome (Bool × Cache)
  unfolding add_content
  read_content cache copied_at n f none = ret (false, cache)
  read_content cache copied_at n f (some p) =
      if (length f.content == 0) || not f.readable then ret (false, cache) else do
        block ← write cache.memory.ptr p f.content
        let m = record (cache.memory) { ptr = block }
        mime ← from_filename (uri_view m copied_at n)
        add_content (record cache { memory = m })
            (record {
              uri_at = copied_at;
              uri_length = n;
              mime_type = mime;
              memory_at = p;
              size = length f.content;
            })

  -- From `fopen` on.
  pub open_content : Cache → Option ℕ → ℕ → Option OpenFile → Outcome (Bool × Cache)
  unfolding read_content
  open_content cache copied_at n none = ret (false, cache)
  open_content cache copied_at n (some f) = do
    (buf, m) ← Memory.get realloc cache.memory (length f.content)
    read_content (record cache { memory = m }) copied_at n f buf

  -- A path that is shorter than that of the directory is copied with a negative length.
  pub static_cache_add : Cache → File → Outcome (Bool × Cache)
  unfolding copy_path open_content
  static_cache_add cache file = if ltb file.path.length cache.base_dir.length then fault else do
    let n = file.path.length - cache.base_dir.length
    (copied_at, m) ← Memory.get realloc cache.memory n
    m' ← copy_path m copied_at (drop cache.base_dir.length file.path.begin) n
    name ← c_string file.path.begin
    open_content (record cache { memory = m' }) copied_at n (fopen name)

  -- A call that is undefined leaves no cache.
  pub file_found : File → Outcome Cache → Bool × Outcome Cache
  unfolding static_cache_add
  file_found file s =
      (true, do cache ← s; (added, cache') ← static_cache_add cache file; ret cache')

  -- `malloc` gives the block of the memory, `path` is what the path of the traversal holds at first,
  -- and `none` is the answer `false`.
  unfoldable pub static_cache_init :
      (ℕ → Bytes) → (Bytes → Option (List Entry)) → Bytes → Bytes → Outcome (Option Cache)
  unfolding file_found
  static_cache_init malloc opendir path base_dir = elim (dynamic_init malloc (pos (64 * 1024))) [
    | none ↦ ret none
    | some m ↦ do
      (err, s) ← traverse opendir file_found base_dir path (
          ret (record {
            base_dir = string_const base_dir;
            memory = m;
            contents = [];
            room = content_capacity;
          }))
      cache ← s
      ret (kept_on_success err cache)
  ]

-- The loop of `on_request`.
unfoldable pub find_content : List Content → Memory → HiwString → Outcome (Option Content)
find_content [] m uri = ret none
find_content (c ∷ contents) m uri =
    let rest = find_content contents m uri in
    do same ← cmp (uri_view m c.uri_at c.uri_length) uri; if same then ret (some c) else rest

module _ (env : Env) where
  open env use {Conn}

  -- A page with this status and type.
  pub respond : Exchange Conn → ℤ → HiwString → Bytes → Outcome (Exchange Conn)
  respond x status mime body = do
    (sized, r1) ← set_content_length env (set_status_code x.response status).1 (pos (length body))
    (typed, r2) ← set_content_type env r1 mime
    (wrote, resp, c) ← write_body_raw env r2 x.conn body
    ret (record x { response = resp; conn = c })

  -- `on_request`
  pub static_on_request : Cache → Servlet Conn
  unfolding respond
  static_on_request cache x = do
    found ← find_content cache.contents cache.memory x.request.uri
    elim found [
      | some c ↦ respond x (pos 200) c.mime_type (take c.size (drop c.memory_at cache.memory.ptr))
      | none ↦ respond x (pos 404) (mimetype_text text_plain) (codes "could not find resource")
    ]
