-- ===== src/FileContent/InOrder.antt =====
-- `hiw_file_traverse` and the files of the tree in order.
use highway.Prelude.{
  ℕ, zero, suc, ◌+◌, ◌-◌, ◌≤◌, ◌≡◌, ◌≢◌, refl, sym, ap, ◌∙◌, Bool, List, [], ◌∷◌, ◌++◌,
  append_assoc, All-append, Bytes, codes, length, Option, ret, arith, length-append, ==_iff, ◌==◌,
  if_true, >>=-ret,
}
use mathlib.Core.Path.{subst}
use highway.FileContent.{
  Entry, File, max_path, round_directory, round_file, scan, opened, c_string, Traversal, traverse1,
  traverse,
}
use highway.FileContent.Fits.{
  Starts, Starts-append, copy-Starts, c_string-Starts, ignored_self, ignored-parent,
}
use highway.FileContent.Files.{Names}
use highway.FileContent.Walk.{
  Listing, nothing, self, parent, file, directory, entries, files, on_true, for_each,
  for_each-append, answer, Opens, Contains,
}
use highway.FileContent.Rounds.{
  Comes, Comes-append, Comes-step, Comes-at, file-Comes, directory-Comes, place-Comes,
  ignored_entry, Descends,
}

module _ {S : Type 0} (opendir : Bytes → Option (List Entry)) (func : File → S → Bool × S)
    (visit : Bytes → Bytes → S → Bool × S)
    (reads : (f : File) (path name : Bytes) (s : S)
      → Names f path name
      → func f s ≡ visit path name s) where
  scan-Comes :
      (descend : Bytes → ℕ → S → Traversal S) (dir : Bytes) (listing : Listing) (path : Bytes)
      (s : S)
      → Descends opendir func visit reads (length (dir ++ codes "/")) descend
      → length dir + 3 ≤ max_path
      → Contains opendir dir listing
      → Starts path (dir ++ codes "/")
      → Comes
          (scan opendir func descend (entries listing) path (length (dir ++ codes "/")) s)
          (dir ++ codes "/")
          (for_each visit (files dir listing) s)
  unfolding scan
  scan-Comes descend dir nothing path s d fits contains st = (path, refl, st)
  scan-Comes descend dir (self rest) path s d fits contains st =
      ignored_entry opendir func visit reads descend (codes ".") path (dir ++ codes "/") s
        (λ s1 p. scan opendir func descend (entries rest) p (length (dir ++ codes "/")) s1)
        (for_each visit (files dir rest) s) (omega (arith, length-append dir (codes "/")))
        ignored_self st (λ placed st'. scan-Comes descend dir rest placed s d fits contains st')
  scan-Comes descend dir (parent rest) path s d fits contains st =
      ignored_entry opendir func visit reads descend (codes "..") path (dir ++ codes "/") s
        (λ s1 p. scan opendir func descend (entries rest) p (length (dir ++ codes "/")) s1)
        (for_each visit (files dir rest) s)
        (omega (arith, contains.0, length-append dir (codes "/"))) ignored-parent st
        (λ placed st'. scan-Comes descend dir rest placed s d fits contains.1 st')
  scan-Comes descend dir (file name rest) path s d fits contains st =
      let front = dir ++ codes "/" in
      let next : S → Bytes → Traversal S =
        λ s1 p. scan opendir func descend (entries rest) p (length front) s1 in
      place-Comes opendir func visit reads name path front
        (λ (path2, p). round_file opendir func name p path2 s next)
        (on_true (visit (front ++ name) name s) (for_each visit (files dir rest)))
        (omega (arith, contains.0, length-append front name)) st
        (λ placed st'.
          file-Comes opendir func visit reads name placed front s next
            (for_each visit (files dir rest)) st'
            (λ s1. scan-Comes descend dir rest placed s1 d fits contains.1 (
              Starts-append placed front name (Starts-append placed (front ++ name) (0 ∷ []) st'))))
  scan-Comes descend dir (directory name inner rest) path s d fits
        (is_name, opens, inside, contains) st =
      let front = dir ++ codes "/" in
      let next : S → Bytes → Traversal S =
        λ s1 p. scan opendir func descend (entries rest) p (length front) s1 in
      place-Comes opendir func visit reads name path front
        (λ (path2, p). round_directory opendir func descend name p path2 s next)
        (for_each visit (files (front ++ name) inner ++ files dir rest) s)
        (omega (arith, opens.fits, length-append front name)) st
        (λ placed st'.
          Comes-at (for_each-append visit (files (front ++ name) inner) (files dir rest) s) (
            directory-Comes opendir func visit reads descend name placed front inner s next
              (for_each visit (files dir rest)) d is_name opens inside
              (Starts-append placed (front ++ name) (0 ∷ []) st')
              (λ s1 p st1. scan-Comes descend dir rest p s1 d fits contains st1)))

  -- `hiw_file_traverse1` of a directory that is deep enough in the path.
  traverse1-Comes :
      (depth : ℕ)
      → Descends opendir func visit reads (suc max_path - depth) (traverse1 opendir func depth)
  unfolding traverse1
  traverse1-Comes zero dir inner path s long opens contains st = absurd (omega (arith, opens.fits))
  traverse1-Comes (suc depth) dir inner path s long opens contains st =
      let front = dir ++ codes "/" in
      let (slashed, eq1, st1) = copy-Starts path dir (codes "/") st (omega (arith, opens.fits)) in
      let (dotted, eq2, st2) =
        copy-Starts slashed front (b'.' ∷ 0 ∷ []) st1
          (omega (arith, opens.fits, length-append dir (codes "/"))) in
      let size : length (front ++ b'.' ∷ 0 ∷ []) - length front ≡ 2 =
        omega (arith, length-append front (b'.' ∷ 0 ∷ [])) in
      let st3 : Starts dotted ((front ++ codes ".") ++ 0 ∷ []) =
        subst (Starts dotted) (sym (append_assoc front (codes ".") (0 ∷ []))) st2 in
      let read : c_string dotted ≡ ret (front ++ codes ".") =
        c_string-Starts dotted (front ++ codes ".") st3 (
          All-append (λ c. c ≢ 0) front (codes ".")
            (All-append (λ c. c ≢ 0) dir (codes "/") opens.no_zero (ground arith))
            (ground arith)) in
      Comes-step _
        (scan opendir func (traverse1 opendir func depth) (entries inner) dotted (length front) s)
        dir _
        (>>=-ret _ _ _ eq1
          ∙ >>=-ret _ _ _ eq2
          ∙ if_true (length (front ++ b'.' ∷ 0 ∷ []) - length front == 2) _ _ ((==_iff _ 2).1 size)
          ∙ >>=-ret _ _ _ read
          ∙ ap (λ l. opened opendir func (traverse1 opendir func depth) l dotted (length front) s)
              opens.lists)
        (Comes-append _ dir (codes "/") _ (
          scan-Comes (traverse1 opendir func depth) dir inner dotted s
            (λ dir' inner' path' s' long'.
              traverse1-Comes depth dir' inner' path' s'
                (omega (arith, long, long', length-append dir (codes "/"))))
            opens.fits contains
            (Starts-append dotted front (codes ".")
              (Starts-append dotted (front ++ codes ".") (0 ∷ []) st3))))

  -- `hiw_file_traverse` of a tree whose paths fit `HIW_MAX_PATH` gives the callback the files in and
  -- under the root, each with its path, its name and its suffix and a zero behind them, in the order
  -- of the directories, up to the first that it answers false for, which alone makes the answer an
  -- error; if what the callback does depends on no more than those texts.
  pub traverse-for_each :
      (root path : Bytes) (listing : Listing) (s : S)
      → length path ≡ max_path
      → Opens opendir root listing
      → Contains opendir root listing
      → traverse opendir func root path s
        ≡ ret (
          answer (for_each visit (files root listing) s).0,
          (for_each visit (files root listing) s).1,
        )
  unfolding traverse
  traverse-for_each root path listing s size opens contains =
      let (rooted, eq0, st0) =
        copy-Starts path [] root (record { size = size; spells = refl })
          (omega (arith, opens.fits)) in
      let (path', eq1, st1) =
        traverse1-Comes (suc max_path) root listing rooted s (omega arith) opens contains st0 in
      >>=-ret _ _ _ eq0 ∙ >>=-ret _ _ _ eq1
