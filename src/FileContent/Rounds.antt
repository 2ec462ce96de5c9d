-- ===== src/FileContent/Rounds.antt =====
-- One entry of a directory in a traversal.
use highway.Prelude.{
  ℕ, ◌+◌, ◌≤◌, ◌<◌, ◌≡◌, refl, sym, ap, ◌∙◌, Bool, true, false, List, [], ◌∷◌, ◌++◌, Bytes, length,
  Option, ret, ◌>>=◌, arith, length-append, >>=-ret,
}
use mathlib.Core.Path.{subst}
use highway.FileContent.{
  Entry, File, max_path, ignored, place, on_success, on_answer, round_directory, round_file,
  Traversal,
}
use highway.FileContent.Fits.{Starts, Starts-append, place-Starts, ignored-other}
use highway.FileContent.Files.{Names, file_at-Names}
use highway.FileContent.Walk.{Listing, files, on_true, for_each, answer, IsName, Opens, Contains}

module _ {S : Type 0} where
  -- A traversal that comes to what a visitor answers, with the path as it was up to its length.
  abbrev pub Comes : Traversal S → Bytes → Bool × S → Type 0
  Comes t front (go, s) = (path : Bytes) × (t ≡ ret (answer go, s, path)) × Starts path front

  pub Comes-step :
      (t t' : Traversal S) (front : Bytes) (r : Bool × S)
      → t ≡ t'
      → Comes t' front r
      → Comes t front r
  Comes-step t t' front (go, s) e (path, comes, st) = (path, e ∙ comes, st)

  pub Comes-at :
      {t : Traversal S} {front : Bytes} {r r' : Bool × S}
      → r ≡ r'
      → Comes t front r'
      → Comes t front r
  Comes-at {t = t} {front = front} e h = subst (λ q. Comes t front q) (sym e) h

  pub Comes-append :
      (t : Traversal S) (front name : Bytes) (r : Bool × S)
      → Comes t (front ++ name) r
      → Comes t front r
  Comes-append t front name (go, s) (path, comes, st) =
      (path, comes, Starts-append path front name st)

  on_answer-Comes :
      (r : Bool × S) (path front : Bytes) (next : S → Bytes → Traversal S) (rest : S → Bool × S)
      → Starts path front
      → ((s : S) → Comes (next s path) front (rest s))
      → Comes (on_answer r path next) front (on_true r rest)
  on_answer-Comes (true, s) path front next rest st h = h s
  on_answer-Comes (false, s) path front next rest st h = (path, refl, st)

  on_success-Comes :
      (t : Traversal S) (r : Bool × S) (front name : Bytes) (next : S → Bytes → Traversal S)
      (rest : S → Bool × S)
      → Comes t (front ++ name) r
      → ((s : S) (path : Bytes) → Starts path front → Comes (next s path) front (rest s))
      → Comes (t >>= λ e. on_success e next) front (on_true r rest)
  on_success-Comes t (true, s) front name next rest (path, comes, st) h =
      Comes-step (t >>= λ e. on_success e next) (next s path) front (rest s) (>>=-ret _ _ _ comes)
        (h s path (Starts-append path front name st))
  on_success-Comes t (false, s) front name next rest (path, comes, st) h =
      (path, >>=-ret _ _ _ comes, Starts-append path front name st)

module _ {S : Type 0} (opendir : Bytes → Option (List Entry)) (func : File → S → Bool × S)
    (visit : Bytes → Bytes → S → Bool × S)
    (reads : (f : File) (path name : Bytes) (s : S)
      → Names f path name
      → func f s ≡ visit path name s) where
  -- The recursive call, in directories whose path is long enough.
  abbrev pub Descends : ℕ → (Bytes → ℕ → S → Traversal S) → Type 0
  Descends least descend =
      (dir : Bytes) (inner : Listing) (path : Bytes) (s : S)
      → least ≤ length dir
      → Opens opendir dir inner
      → Contains opendir dir inner
      → Starts path dir
      → Comes (descend path (length dir) s) dir (for_each visit (files dir inner) s)

  -- An entry that is ignored.
  ignored-Comes :
      (descend : Bytes → ℕ → S → Traversal S) (name path front : Bytes) (path2 : ℕ) (s : S)
      (next : S → Bytes → Traversal S) (r : Bool × S)
      → ignored name (length name) ≡ ret true
      → Comes (next s path) front r
      → Comes (round_directory opendir func descend name path path2 s next) front r
  unfolding round_directory
  ignored-Comes descend name path front path2 s next r skipped h =
      Comes-step _ (next s path) front r (>>=-ret _ _ true skipped) h

  pub file-Comes :
      (name path front : Bytes) (s : S) (next : S → Bytes → Traversal S) (rest : S → Bool × S)
      → Starts path ((front ++ name) ++ 0 ∷ [])
      → ((s : S) → Comes (next s path) front (rest s))
      → Comes
          (round_file opendir func name path (length (front ++ name)) s next)
          front
          (on_true (visit (front ++ name) name s) rest)
  unfolding round_file
  file-Comes name path front s next rest st h =
      let (f, made, names) = file_at-Names path front name st in
      Comes-step _ (on_answer (visit (front ++ name) name s) path next) front _
        (>>=-ret _ _ f made
          ∙ ap (λ r. on_answer r path next) (reads f (front ++ name) name s names))
        (on_answer-Comes (visit (front ++ name) name s) path front next rest
          (Starts-append path front name (Starts-append path (front ++ name) (0 ∷ []) st)) h)

  pub directory-Comes :
      (descend : Bytes → ℕ → S → Traversal S) (name path front : Bytes) (inner : Listing) (s : S)
      (next : S → Bytes → Traversal S) (rest : S → Bool × S)
      → Descends (length front) descend
      → IsName name
      → Opens opendir (front ++ name) inner
      → Contains opendir (front ++ name) inner
      → Starts path (front ++ name)
      → ((s : S) (path : Bytes) → Starts path front → Comes (next s path) front (rest s))
      → Comes
          (round_directory opendir func descend name path (length (front ++ name)) s next)
          front
          (on_true (for_each visit (files (front ++ name) inner) s) rest)
  unfolding round_directory
  directory-Comes descend name path front inner s next rest d is_name opens contains st h =
      Comes-step _ (descend path (length (front ++ name)) s >>= λ e. on_success e next) front _
        (>>=-ret _ _ false (ignored-other name is_name.not_self is_name.not_parent))
        (on_success-Comes (descend path (length (front ++ name)) s)
          (for_each visit (files (front ++ name) inner) s) front name next rest
          (d (front ++ name) inner path s (omega (arith, length-append front name)) opens contains
            st)
          h)

  -- An entry once the path is placed.
  pub place-Comes :
      (name path front : Bytes) (k : ℕ × Bytes → Traversal S) (r : Bool × S)
      → length front + length name < max_path
      → Starts path front
      → ((placed : Bytes)
          → Starts placed ((front ++ name) ++ 0 ∷ [])
          → Comes (k (length (front ++ name), placed)) front r)
      → Comes (place name path (length front) >>= k) front r
  place-Comes name path front k r room st h =
      let (placed, eq, at_name) = place-Starts path front name st room in
      Comes-step (place name path (length front) >>= k) (k (length (front ++ name), placed)) front r
        (>>=-ret _ _ _ eq) (h placed at_name)

  pub ignored_entry :
      (descend : Bytes → ℕ → S → Traversal S) (name path front : Bytes) (s : S)
      (next : S → Bytes → Traversal S) (r : Bool × S)
      → length front + length name < max_path
      → ignored name (length name) ≡ ret true
      → Starts path front
      → ((placed : Bytes) → Starts placed front → Comes (next s placed) front r)
      → Comes
          (place name path (length front) >>= λ (path2, p).
            round_directory opendir func descend name p path2 s next)
          front
          r
  ignored_entry descend name path front s next r room skipped st h =
      place-Comes name path front
        (λ (path2, p). round_directory opendir func descend name p path2 s next) r room st
        (λ placed st'.
          ignored-Comes descend name placed front (length (front ++ name)) s next r skipped (
            h placed (
              Starts-append placed front name (Starts-append placed (front ++ name) (0 ∷ []) st'))))
