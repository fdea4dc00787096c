-- ===== src/Tests/Resources.antt =====
-- The sample files of a small directory tree.
use aikernel_core.Base.{◌≡◌, refl, [], ◌∷◌}
use aikernel_core.Python.Sorting.{sorted}
use aikernel_core.CtgRom.{
  Entries, directory, file, no_entry, entry, root_text_of, ctg_rom_sample_files,
}
use aikernel_core.CtgRom.Order.{swapped}
use aikernel_core.CtgRom.Paths.{AreUnder, paths_of, ctg_rom_sample_files-sorted_paths}

-- A tree with backslashes, as Windows shows it.
abbrev manual : Entries
manual =
    entry (file "C:\\rom\\manual\\b.yaml" "b.yaml")
      (entry (file "C:\\rom\\manual\\a.md" "a.md") no_entry)

abbrev tree : Entries
tree = entry (directory "C:\\rom\\manual" "manual" manual) (
    entry (file "C:\\rom\\run.py" "run.py")
      (entry (file "C:\\rom\\README.md" "README.md") no_entry))

files_of_tree :
    ctg_rom_sample_files "C:\\rom\\" tree ≡ "README.md" ∷ "manual/a.md" ∷ "manual/b.yaml" ∷ []
unfolding ctg_rom_sample_files
files_of_tree = refl

tree-AreUnder : AreUnder (root_text_of "C:\\rom\\") tree
unfolding AreUnder root_text_of
tree-AreUnder = ((refl, (refl, (refl, tt))), (refl, (refl, tt)))

-- The same tree, with the entries of its root in another order.
abbrev other_tree : Entries
other_tree = entry (file "C:\\rom\\run.py" "run.py") (
    entry (directory "C:\\rom\\manual" "manual" manual)
      (entry (file "C:\\rom\\README.md" "README.md") no_entry))

ctg_rom_sample_files-sorted_paths_example :
    (ctg_rom_sample_files "C:\\rom\\" tree ≡ sorted (paths_of "" tree))
    × (ctg_rom_sample_files "C:\\rom\\" other_tree ≡ sorted (paths_of "" tree))
ctg_rom_sample_files-sorted_paths_example =
    ctg_rom_sample_files-sorted_paths "C:\\rom\\" tree-AreUnder (
      swapped (directory "C:\\rom\\manual" "manual" manual) (file "C:\\rom\\run.py" "run.py")
        (entry (file "C:\\rom\\README.md" "README.md") no_entry))
