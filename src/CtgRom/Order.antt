-- ===== src/CtgRom/Order.antt =====
-- The order in which a file system lists a directory, and the files that
-- python/src/aikernel_net/samples/ctg_rom/__init__.py returns.
use mathlib.Core.List.Permᴰ
use mathlib.Core.List.{Permᴰ}
use mathlib.Core.List.{append_assoc, append-nil}
use aikernel_core.Base.{
  String, ◌≡◌, refl, sym, ap, subst, ◌∙◌, List, [], ◌∷◌, ◌++◌, Bool-cases, inl, inr, if◌then◌else◌,
}
use aikernel_core.Python.Sorting.{sorted}
use aikernel_core.Python.Sorting.Permutation.{sorted-perm}
use aikernel_core.CtgRom.{
  Entry, Entries, directory, file, no_entry, entry, is_sample, relative_name, collect_files,
  collect_item, ctg_rom_sample_files,
}

-- The same tree, with the entries of each directory in any order.
mutual
  pub data SameEntry : Entry → Entry → Type 0 where
    same_file : (text name : String) → SameEntry (file text name) (file text name)
    same_directory :
        (text name : String) {items others : Entries}
        → SameEntries items others
        → SameEntry (directory text name items) (directory text name others)

  pub data SameEntries : Entries → Entries → Type 0 where
    nothing : SameEntries no_entry no_entry
    both :
        {item other : Entry} {items others : Entries}
        → SameEntry item other
        → SameEntries items others
        → SameEntries (entry item items) (entry other others)
    swapped :
        (item other : Entry) (items : Entries)
        → SameEntries (entry item (entry other items)) (entry other (entry item items))
    after :
        {items others more : Entries}
        → SameEntries items others
        → SameEntries others more
        → SameEntries items more

-- The files that an entry adds.
unfoldable mutual
  unfolding is_sample relative_name

  pub files_of : String → Entries → List String
  files_of root no_entry = []
  files_of root (entry item items) = files_in root item ++ files_of root items

  pub files_in : String → Entry → List String
  files_in root (directory text name items) = files_of root items
  files_in root (file text name) = if is_sample name then relative_name root text name ∷ [] else []

mutual
  unfolding collect_files files_of

  collect_files-files_of :
      (root : String) (items : Entries) (files : List String)
      → collect_files root items files ≡ files ++ files_of root items
  collect_files-files_of root no_entry files = sym (append-nil files)
  collect_files-files_of root (entry item items) files =
      collect_files-files_of root items (collect_item root item files)
      ∙ ap (λ l. l ++ files_of root items) (collect_item-files_in root item files)
      ∙ append_assoc files (files_in root item) (files_of root items)

  collect_item-files_in :
      (root : String) (item : Entry) (files : List String)
      → collect_item root item files ≡ files ++ files_in root item
  collect_item-files_in root (directory text name items) files =
      collect_files-files_of root items files
  collect_item-files_in root (file text name) files = elim (Bool-cases (is_sample name)) [
    | inl e ↦ rw e refl
    | inr e ↦ rw e (sym (append-nil files))
  ]

swap_blocks : (x y z : List String) → Permᴰ (x ++ (y ++ z)) (y ++ (x ++ z))
swap_blocks x y z =
    subst (λ l. Permᴰ l (y ++ (x ++ z))) (append_assoc x y z)
      (subst (λ l. Permᴰ ((x ++ y) ++ z) l) (append_assoc y x z)
        (Permᴰ.append_right z (Permᴰ.append_comm x y)))

mutual
  unfolding files_of

  files_of-perm :
      (root : String) {items others : Entries}
      → SameEntries items others
      → Permᴰ (files_of root items) (files_of root others)
  files_of-perm root nothing = Permᴰ.nil
  files_of-perm root (both {other = other} {items = items} s t) =
      Permᴰ.trans (Permᴰ.append_right (files_of root items) (files_in-perm root s))
        (Permᴰ.append_left (files_in root other) (files_of-perm root t))
  files_of-perm root (swapped item other items) =
      swap_blocks (files_in root item) (files_in root other) (files_of root items)
  files_of-perm root (after s t) = Permᴰ.trans (files_of-perm root s) (files_of-perm root t)

  files_in-perm :
      (root : String) {item other : Entry}
      → SameEntry item other
      → Permᴰ (files_in root item) (files_in root other)
  files_in-perm root (same_file text name) = Permᴰ.refl (files_in root (file text name))
  files_in-perm root (same_directory text name s) = files_of-perm root s

pub ctg_rom_sample_files-files_of :
    (root : String) (items : Entries)
    → ctg_rom_sample_files root items ≡ sorted (files_of root items)
unfolding ctg_rom_sample_files
ctg_rom_sample_files-files_of root items = ap sorted (collect_files-files_of root items [])

-- The files are the same, in the same order, whatever the order in which directories are listed.
pub ctg_rom_sample_files-same :
    (root : String) {items others : Entries}
    → SameEntries items others
    → ctg_rom_sample_files root items ≡ ctg_rom_sample_files root others
ctg_rom_sample_files-same root {items} {others} s =
    ctg_rom_sample_files-files_of root items
    ∙ sorted-perm (files_of-perm root s)
    ∙ sym (ctg_rom_sample_files-files_of root others)
