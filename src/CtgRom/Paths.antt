-- ===== src/CtgRom/Paths.antt =====
-- The names that python/src/aikernel_net/samples/ctg_rom/__init__.py returns, where the text of an
-- entry is that of its directory, a slash or a backslash, and its name.
use Prim.Native.String.{◌++◌ as ◌<>◌}
use text.Mathlib.TextEquality.{starts_with_iff}
use text.Mathlib.TextLemmas.{prefix-append, append-nil, append_assoc, length-append}
use aikernel_core.Base.{String, ◌≡◌, refl, sym, ap, ◌∙◌, List, [], ◌∷◌, ◌++◌, if◌then◌else◌}
use aikernel_core.Python.Sorting.{sorted}
use aikernel_core.Python.Text.Affix.{skip, skip-count}
use aikernel_core.CtgRom.{
  Entry, Entries, directory, file, no_entry, entry, is_sample, relative_name, relative_to,
  root_text_of, slashes, ctg_rom_sample_files,
}
use aikernel_core.CtgRom.Order.{
  SameEntries, files_of, files_in, ctg_rom_sample_files-files_of, ctg_rom_sample_files-same,
}

-- The entries of a directory whose text, with slashes, is `base`.
unfoldable mutual
  unfolding slashes

  pub AreUnder : String → Entries → Type 0
  AreUnder base no_entry = Unit
  AreUnder base (entry item items) = IsUnder base item × AreUnder base items

  pub IsUnder : String → Entry → Type 0
  IsUnder base (directory text name items) =
      (slashes text ≡ base <> ("/" <> name)) × AreUnder (base <> ("/" <> name)) items
  IsUnder base (file text name) = slashes text ≡ base <> ("/" <> name)

-- The paths of the sample files below `prefix`.
unfoldable mutual
  unfolding is_sample

  pub paths_of : String → Entries → List String
  paths_of prefix no_entry = []
  paths_of prefix (entry item items) = paths_in prefix item ++ paths_of prefix items

  pub paths_in : String → Entry → List String
  paths_in prefix (directory text name items) = paths_of (prefix <> (name <> "/")) items
  paths_in prefix (file text name) = if is_sample name then (prefix <> name) ∷ [] else []

-- What follows the text of the root and a slash.
relative_to-prefix :
    (root rest name : String) → relative_to root ((root <> "/") <> rest) name ≡ rest
unfolding relative_to
relative_to-prefix root rest name =
    rw
      ((starts_with_iff ((root <> "/") <> rest) (root <> "/")).1 (prefix-append (root <> "/") rest))
      (ap (λ n. skip n ((root <> "/") <> rest)) (sym (length-append root "/"))
        ∙ skip-count (root <> "/") rest)

-- The text of an entry of a directory at `prefix` below the root.
below :
    (root base prefix rest : String)
    → base <> "/" ≡ (root <> "/") <> prefix
    → base <> ("/" <> rest) ≡ (root <> "/") <> (prefix <> rest)
below root base prefix rest h =
    sym (append_assoc base "/" rest)
    ∙ ap (λ s. s <> rest) h
    ∙ append_assoc (root <> "/") prefix rest

mutual
  unfolding files_of paths_of AreUnder relative_name

  files_of-paths_of :
      (root base prefix : String) (items : Entries)
      → base <> "/" ≡ (root_text_of root <> "/") <> prefix
      → AreUnder base items
      → files_of root items ≡ paths_of prefix items
  files_of-paths_of root base prefix no_entry h under = refl
  files_of-paths_of root base prefix (entry item items) h under =
      rw
        (
          files_in-paths_in root base prefix item h under.0,
          files_of-paths_of root base prefix items h under.1,
        )
        refl

  files_in-paths_in :
      (root base prefix : String) (item : Entry)
      → base <> "/" ≡ (root_text_of root <> "/") <> prefix
      → IsUnder base item
      → files_in root item ≡ paths_in prefix item
  files_in-paths_in root base prefix (directory text name items) h under =
      files_of-paths_of root (base <> ("/" <> name)) (prefix <> (name <> "/")) items
        (append_assoc base ("/" <> name) "/"
          ∙ ap (λ s. base <> s) (append_assoc "/" name "/")
          ∙ below (root_text_of root) base prefix (name <> "/") h)
        under.1
  files_in-paths_in root base prefix (file text name) h under =
      ap (λ s. if is_sample name then s ∷ [] else [])
        (ap (λ s. relative_to (root_text_of root) s name)
            (under ∙ below (root_text_of root) base prefix name h)
          ∙ relative_to-prefix (root_text_of root) (prefix <> name) name)

-- Where the text of each entry is that of its directory, a slash or a backslash, and its name, the
-- files are the sorted paths, relative to the root and with slashes, of those files of the tree
-- whose name ends with `.md` or `.yaml`.
ctg_rom_sample_files-paths_of :
    (root : String) (items : Entries)
    → AreUnder (root_text_of root) items
    → ctg_rom_sample_files root items ≡ sorted (paths_of "" items)
ctg_rom_sample_files-paths_of root items under =
    ctg_rom_sample_files-files_of root items
    ∙ ap sorted (
        files_of-paths_of root (root_text_of root) "" items
          (sym (append-nil (root_text_of root <> "/"))) under)

-- Where the text of each entry is that of its directory, a slash or a backslash, and its name, the
-- files are the sorted paths, relative to the root and with slashes, of those files of the tree
-- whose name ends with `.md` or `.yaml`; and they are the same, in the same order, where the
-- directories are listed in any other order.
pub ctg_rom_sample_files-sorted_paths :
    (root : String) {items others : Entries}
    → AreUnder (root_text_of root) items
    → SameEntries items others
    → (ctg_rom_sample_files root items ≡ sorted (paths_of "" items))
      × (ctg_rom_sample_files root others ≡ sorted (paths_of "" items))
ctg_rom_sample_files-sorted_paths root {items} {others} under same =
    let files = ctg_rom_sample_files-paths_of root items under in
    (files, sym (ctg_rom_sample_files-same root same) ∙ files)
