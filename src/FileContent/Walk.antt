-- ===== src/FileContent/Walk.antt =====
-- A file tree, as the system lists it to a traversal, and its files in order.
use highway.Prelude.{
  ◌+◌, ◌≤◌, ◌<◌, ◌≡◌, ◌≢◌, refl, Bool, true, false, List, [], ◌∷◌, ◌++◌, Bytes, Lacks, codes,
  length, Option, some,
}
use highway.FileContent.{TraverseError, success, aborted, Entry, max_path}

-- What a directory lists, one entry after another: the entries `.` and `..`, a file, or a directory
-- with what that one lists.
pub data Listing : Type 0 where
  nothing : Listing
  self : Listing → Listing
  parent : Listing → Listing
  file : Bytes → Listing → Listing
  directory : Bytes → Listing → Listing → Listing

-- As `readdir` reads it.
abbrev pub entries : Listing → List Entry
entries nothing = []
entries (self rest) = record { d_name = codes "."; is_directory = true } ∷ entries rest
entries (parent rest) = record { d_name = codes ".."; is_directory = true } ∷ entries rest
entries (file name rest) = record { d_name = name; is_directory = false } ∷ entries rest
entries (directory name inner rest) = record { d_name = name; is_directory = true } ∷ entries rest

-- The path of an entry.
abbrev pub under : Bytes → Bytes → Bytes
under path name = (path ++ codes "/") ++ name

-- The path and the name of every file in and under a directory, in the order of the listings.
abbrev pub files : Bytes → Listing → List (Bytes × Bytes)
files path nothing = []
files path (self rest) = files path rest
files path (parent rest) = files path rest
files path (file name rest) = (under path name, name) ∷ files path rest
files path (directory name inner rest) = files (under path name) inner ++ files path rest

abbrev pub on_true {ℓ} : {S : Type ℓ} → Bool × S → (S → Bool × S) → Bool × S
on_true (true, s) next = next s
on_true (false, s) next = (false, s)

-- A visitor of one file after another, up to the first that it answers false for.
abbrev pub for_each {ℓ} :
    {S : Type ℓ} → (Bytes → Bytes → S → Bool × S) → List (Bytes × Bytes) → S → Bool × S
for_each visit [] s = (true, s)
for_each visit ((path, name) ∷ rest) s = on_true (visit path name s) (for_each visit rest)

on_true_assoc {ℓ} :
    {S : Type ℓ} (r : Bool × S) (f g h : S → Bool × S)
    → ((s : S) → h s ≡ on_true (f s) g)
    → on_true r h ≡ on_true (on_true r f) g
on_true_assoc (true, s) f g h e = e s
on_true_assoc (false, s) f g h e = refl

pub for_each-append {ℓ} :
    {S : Type ℓ} (visit : Bytes → Bytes → S → Bool × S) (xs ys : List (Bytes × Bytes)) (s : S)
    → for_each visit (xs ++ ys) s ≡ on_true (for_each visit xs s) (for_each visit ys)
for_each-append visit [] ys s = refl
for_each-append visit ((path, name) ∷ xs) ys s =
    on_true_assoc (visit path name s) (for_each visit xs) (for_each visit ys)
      (for_each visit (xs ++ ys)) (for_each-append visit xs ys)

-- What the caller is told.
abbrev pub answer : Bool → TraverseError
answer true = success
answer false = aborted

-- A name that an entry may have, other than `.` and `..`.
pub record IsName (name : Bytes) : Type 0 where
  pub no_zero : Lacks 0 name
  pub not_self : name ≢ codes "."
  pub not_parent : name ≢ codes ".."

-- The system lists this at the path.
pub record Opens (opendir : Bytes → Option (List Entry)) (path : Bytes) (listing : Listing)
    : Type 0 where
  pub lists : opendir (under path (codes ".")) ≡ some (entries listing)
  pub fits : length path + 3 ≤ max_path
  pub no_zero : Lacks 0 path

-- All paths in and under the directory fit, and the system lists the directories under it.
abbrev pub Contains : (Bytes → Option (List Entry)) → Bytes → Listing → Type 0
Contains opendir path nothing = Unit
Contains opendir path (self rest) = Contains opendir path rest
Contains opendir path (parent rest) = (length path + 3 < max_path) × Contains opendir path rest
Contains opendir path (file name rest) =
    (length (under path name) < max_path) × Contains opendir path rest
Contains opendir path (directory name inner rest) =
    IsName name
    × Opens opendir (under path name) inner
    × Contains opendir (under path name) inner
    × Contains opendir path rest
