-- ===== src/Examples/Static/Serves.antt =====
-- The program of examples/static: what it caches, and what it answers from that.
use highway.Prelude.{
  ℕ, ◌≤◌, ◌<◌, ◌≡◌, refl, sym, ap, ◌∙◌, Bool, true, List, [], ◌∷◌, ◌++◌, append_assoc, append-nil,
  map, All, All-append, Lacks, Bytes, codes, length, drop, drop-length-append, Option, some,
  Outcome, ret, ◌>>=◌, >>=-ret, arith,
}
use mathlib.Core.Path.{subst}
use highway.Prelude.Int.{ℤ, pos}
use highway.Text.{IsView, bytes, string_const}
use highway.Memory.{dynamic_init}
use highway.Env.{Env}
use highway.Servlet.{Exchange}
use highway.FileContent.{Entry, File, max_path}
use highway.FileContent.Files.{Names}
use highway.FileContent.Walk.{
  Listing, nothing, self, parent, file, directory, under, files, for_each, answer, Opens, Contains,
}
use highway.FileContent.InOrder.{traverse-for_each}
use highway.Examples.Static.{
  OpenFile, Cache, content_capacity, static_cache_add, file_found, static_cache_init,
  static_on_request, kept_on_success,
}
use highway.Examples.Static.Pages.{space, space-append}
use highway.Examples.Static.Spelled.{file_of, static_cache_add-Names}
use highway.Examples.Static.Added.{Caching, static_cache_add-Caching}
use highway.Examples.Static.Found.{page_of, page_for, answer_page, static_on_request-page_of}

-- Every file's path begins with that of the directory.
abbrev Below : Bytes → Bytes × Bytes → Type 0
Below root f = (uri : Bytes) × (f.0 ≡ root ++ uri)

files-Below :
    (root dir : Bytes) (listing : Listing)
    → (d : Bytes) × (dir ≡ root ++ d)
    → All (Below root) (files dir listing)
files-Below root dir nothing h = tt
files-Below root dir (self rest) h = files-Below root dir rest h
files-Below root dir (parent rest) h = files-Below root dir rest h
files-Below root dir (file name rest) (d, e) = (inner, files-Below root dir rest (d, e))
  where
    inner : Below root (under dir name, name)
    inner = (
      (d ++ codes "/") ++ name,
      ap (λ t. under t name) e
          ∙ ap (λ t. t ++ name) (append_assoc root d (codes "/"))
          ∙ append_assoc root (d ++ codes "/") name,
    )
files-Below root dir (directory name inner rest) (d, e) =
    All-append (Below root) (files (under dir name) inner) (files dir rest)
      (files-Below root (under dir name) inner (
        (d ++ codes "/") ++ name,
        ap (λ t. under t name) e
            ∙ ap (λ t. t ++ name) (append_assoc root d (codes "/"))
            ∙ append_assoc root (d ++ codes "/") name,
      ))
      (files-Below root dir rest (d, e))

-- The pages of the files: the path behind that of the directory, and the bytes.
abbrev pub pages : Bytes → (Bytes → Bytes) → List (Bytes × Bytes) → List (Bytes × Bytes)
pages root texts = map (λ f. (drop (length root) f.0, texts f.0))

module _ (fopen : Bytes → Option OpenFile) (texts : Bytes → Bytes) where
  -- A file that opens, can be read and is not empty; its path holds no zero.
  pub record Readable (f : Bytes × Bytes) : Type 0 where
    pub no_zero : Lacks 0 f.0
    pub opens : fopen f.0 ≡ some (record { content = texts f.0; readable = true })
    pub some_byte : 0 < length (texts f.0)

module _ (realloc : Bytes → ℤ → Option Bytes) (fopen : Bytes → Option OpenFile) (grows : ℕ → Bool)
    (grow : (n : ℕ) → grows n ≡ true) (texts : Bytes → Bytes) where
  -- The callback, by the path alone.
  abbrev visit : Bytes → Bytes → Outcome Cache → Bool × Outcome Cache
  visit path name s = (
    true,
    s >>= λ cache. static_cache_add realloc fopen grows cache (file_of path) >>= λ r. ret r.1,
  )

  file_found-visit :
      (f : File) (path name : Bytes) (s : Outcome Cache)
      → Names f path name
      → file_found realloc fopen grows f s ≡ visit path name s
  unfolding file_found
  file_found-visit f path name s n =
      ap (λ k. (true, s >>= k))
        (λ i. λ cache.
          static_cache_add-Names realloc fopen grows cache f path name n i >>= λ r. ret r.1)

  for_each-Caching :
      (root : Bytes) (total : ℕ) (fs : List (Bytes × Bytes)) (cache : Cache)
      (before : List (Bytes × Bytes))
      → All (Below root) fs
      → All (Readable fopen texts) fs
      → Caching root total cache before
      → space (before ++ pages root texts fs) ≤ total
      → (cache' : Cache) × (for_each visit fs (ret cache) ≡ (true, ret cache'))
        × Caching root total cache' (before ++ pages root texts fs)
  for_each-Caching root total [] cache before bs rs h room =
      (cache, refl, subst (Caching root total cache) (sym (append-nil before)) h)
  for_each-Caching root total ((path, name) ∷ fs) cache before ((uri, e), bs) (r, rs) h room =
      let cut : drop (length root) path ≡ uri =
        ap (drop (length root)) e ∙ drop-length-append root uri in
      let whole : before ++ pages root texts ((path, name) ∷ fs)
          ≡ (before ++ (uri, texts path) ∷ []) ++ pages root texts fs =
        sym (append_assoc before ((drop (length root) path, texts path) ∷ []) (pages root texts fs))
        ∙ ap (λ u. (before ++ (u, texts path) ∷ []) ++ pages root texts fs) cut in
      let room' : space ((before ++ (uri, texts path) ∷ []) ++ pages root texts fs) ≤ total =
        subst (λ ps. space ps ≤ total) whole room in
      let size1 = space-append (before ++ (uri, texts path) ∷ []) (pages root texts fs) in
      let size2 = space-append before ((uri, texts path) ∷ []) in
      let (cache1, adds, h1) =
        static_cache_add-Caching realloc fopen grows grow root total cache before uri (texts path) h
          (subst (Lacks 0) e r.no_zero) (ap fopen (sym e) ∙ r.opens) r.some_byte
          (omega (arith, room', size1, size2)) in
      let (cache2, later, h2) =
        for_each-Caching root total fs cache1 (before ++ (uri, texts path) ∷ []) bs rs h1 room' in
      (
        cache2,
        ap (λ c. for_each visit fs c)
              (ap (λ p. static_cache_add realloc fopen grows cache (file_of p) >>= λ r'. ret r'.1) e
                ∙ >>=-ret _ _ _ adds)
            ∙ later,
        subst (Caching root total cache2) (sym whole) h2,
      )

  -- The program caches each file in and under its directory, in their order, and from then on answers
  -- a request whose URI is the path of a file behind the directory's with the bytes and the type of
  -- the first such file, and any other with 404, if the URI is a view of memory that there is,
  -- the paths fit HIW_MAX_PATH, every file can be read
  -- and is not empty, their paths and bytes take no more than the 64 KB of its memory, and the memory
  -- can be allocated.
  pub static_cache_init-Serves :
      (env : Env) (malloc : ℕ → Bytes) (opendir : Bytes → Option (List Entry)) (path root : Bytes)
      (listing : Listing) (x : Exchange env.Conn)
      → length (malloc 65536) ≡ 65536
      → length path ≡ max_path
      → Opens opendir root listing
      → Contains opendir root listing
      → All (Readable fopen texts) (files root listing)
      → space (pages root texts (files root listing)) ≤ 65536
      → IsView x.request.uri
      → (cache : Cache) × (static_cache_init realloc fopen grows malloc opendir path root
          ≡ ret (some cache))
        × (static_on_request env cache x
            ≡ answer_page env x (
                page_for
                  (bytes x.request.uri)
                  (page_of (bytes x.request.uri) (pages root texts (files root listing)))))
  unfolding static_cache_init dynamic_init
  static_cache_init-Serves env malloc opendir path root listing x given size opens contains rs fits
        v =
      let start : Cache = record {
        base_dir = string_const root;
        memory = record { ptr = malloc 65536; pos = 0; resize_bytes = pos 65536 };
        contents = [];
        room = content_capacity;
      } in
      let (cache, all, h) =
        for_each-Caching root 65536 (files root listing) start []
          (files-Below root root listing ([], sym (append-nil root))) rs
          (record {
            dir = refl;
            capacity = given;
            used = refl;
            has = tt;
            fits = omega arith;
            steps = refl;
          })
          fits in
      (
        cache,
        >>=-ret _ _ _ (
              traverse-for_each opendir (file_found realloc fopen grows) visit file_found-visit root
                path listing (ret start) size opens contains)
            ∙ ap (λ (r : Bool × Outcome Cache). r.1 >>= λ c. ret (kept_on_success (answer r.0) c))
                all,
        static_on_request-page_of env root 65536 cache (pages root texts (files root listing)) x h
            fits v,
      )
