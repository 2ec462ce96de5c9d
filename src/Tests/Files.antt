-- ===== src/Tests/Files.antt =====
-- Traversals of a file tree.
use highway.Prelude.{
  ℕ, zero, suc, fault, Ends, Any, ◌≡◌, refl, Bool, true, not, List, [], ◌∷◌, ◌++◌, Bytes, codes,
  Option, none, some, ret, if◌then◌else◌, arith,
}
use highway.Text.{bytes}
use highway.Text.Compare.{same_text}
use highway.FileContent.{aborted, Entry, File, traverse}
use highway.FileContent.Files.{Names}
use highway.FileContent.Walk.{
  Listing, nothing, self, parent, file, directory, entries, Opens, IsName,
}
use highway.FileContent.InOrder.{traverse-for_each}
use highway.FileContent.Depth.{traverse-Ends}
use highway.FileContent.Room.{traverse_too_long}
use highway.Tests.Requests.{zeros}

abbrev inner_files : Listing
inner_files = self (parent (file (codes "b") nothing))

abbrev pub tree : Listing
tree =
    parent
      (self (file (codes "a.c") (directory (codes "d") inner_files (file (codes "e") nothing))))

-- The directories `r` and `r/d`.
abbrev pub list_tree : Bytes → Option (List Entry)
list_tree path =
    if same_text path (codes "r/.")
    then some (entries tree)
    else if same_text path (codes "r/d/.")
    then some (entries inner_files)
    else none

-- Notes the paths, up to a file that is named `b`.
abbrev note_path : Bytes → Bytes → List Bytes → Bool × List Bytes
note_path path name noted = (not (same_text name (codes "b")), noted ++ path ∷ [])

abbrev note_file : File → List Bytes → Bool × List Bytes
note_file f noted = note_path (bytes f.path) (bytes f.filename) noted

note_file-Names :
    (f : File) (path name : Bytes) (noted : List Bytes)
    → Names f path name
    → note_file f noted ≡ note_path path name noted
note_file-Names f path name noted n = rw (n.path_text, n.name_text) refl

pub tree-Opens : Opens list_tree (codes "r") tree
unfolding same_text
tree-Opens = record { lists = refl; fits = omega arith; no_zero = ground arith }

pub inner_files-Opens : Opens list_tree (codes "r/d") inner_files
unfolding same_text
inner_files-Opens = record { lists = refl; fits = omega arith; no_zero = ground arith }

pub d-IsName : IsName (codes "d")
d-IsName = record { no_zero = ground arith; not_self = λ e. cc; not_parent = λ e. cc }

traverse-for_each_example :
    traverse list_tree note_file (codes "r") (zeros 1024) []
    ≡ ret (aborted, codes "r/a.c" ∷ codes "r/d/b" ∷ [])
unfolding same_text
traverse-for_each_example =
    traverse-for_each list_tree note_file note_path note_file-Names (codes "r") (zeros 1024) tree []
      refl tree-Opens
      (
        omega arith,
        (
          omega arith,
          (d-IsName, inner_files-Opens, (omega arith, (omega arith, tt)), (omega arith, tt)),
        ),
      )

-- Every directory holds a directory.
abbrev list_endless : Bytes → Option (List Entry)
list_endless path = some (record { d_name = codes "d"; is_directory = true } ∷ [])

traverse-Ends_example : Ends Any (traverse list_endless note_file (codes "r") (zeros 1024) [])
traverse-Ends_example = traverse-Ends list_endless note_file (codes "r") (zeros 1024) []

abbrev letters : ℕ → Bytes
letters zero = []
letters (suc n) = b'a' ∷ letters n

traverse_too_long_example : traverse list_tree note_file (letters 1023) (zeros 1024) [] ≡ fault
traverse_too_long_example =
    traverse_too_long list_tree note_file (letters 1023) (zeros 1024) [] refl (omega arith)
