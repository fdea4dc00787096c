-- ===== src/CtgRom.antt =====
-- The sample asset helpers: python/src/aikernel_net/samples/ctg_rom/__init__.py.
pub mod Order
pub mod Paths
use Prim.Native.String.{◌++◌ as ◌<>◌, count}
use text.Mathlib.Text.{starts_with}
use aikernel_core.Base.{◌+◌, String, Bool, ◌||◌, List, [], ◌∷◌, ◌++◌, if◌then◌else◌}
use aikernel_core.Python.Text.Affix.{replace, rstrip_char, ends_with, skip}
use aikernel_core.Python.Sorting.{sorted}

-- A directory tree, as `iterdir` and `is_dir` show it. `text` is the `str` of an entry.
mutual
  pub data Entry : Type 0 where
    directory : (text name : String) → Entries → Entry
    file : (text name : String) → Entry

  pub data Entries : Type 0 where
    no_entry : Entries
    entry : Entry → Entries → Entries

abbrev pub slashes : String → String
unfolding replace
slashes = replace "\\" "/"

unfoldable pub root_text_of : String → String
unfolding slashes rstrip_char
root_text_of text = rstrip_char "/" (slashes text)

-- The end of `_relative_name`, on the two texts and the name.
unfoldable pub relative_to : (root_text item_text name : String) → String
unfolding skip
relative_to root_text item_text name =
    if starts_with item_text (root_text <> "/") then skip (count root_text + 1) item_text else name

-- `_relative_name`, on the `str` of the root, and on the `str` and the name of the item
unfoldable pub relative_name : (root text name : String) → String
unfolding relative_to root_text_of slashes
relative_name root text name = relative_to (root_text_of root) (slashes text) name

-- `item.name.endswith((".md", ".yaml"))`
unfoldable pub is_sample : String → Bool
unfolding ends_with
is_sample name = ends_with name ".md" || ends_with name ".yaml"

-- `_collect_files`, over the entries of `current`
unfoldable mutual
  unfolding is_sample relative_name

  pub collect_files : String → Entries → List String → List String
  collect_files root no_entry files = files
  collect_files root (entry item items) files =
      collect_files root items (collect_item root item files)

  pub collect_item : String → Entry → List String → List String
  collect_item root (directory text name items) files = collect_files root items files
  collect_item root (file text name) files =
      if is_sample name then files ++ relative_name root text name ∷ [] else files

-- `ctg_rom_sample_files`, on the `str` of the root and the entries of the root
unfoldable pub ctg_rom_sample_files : String → Entries → List String
unfolding collect_files sorted
ctg_rom_sample_files root items = sorted (collect_files root items [])
