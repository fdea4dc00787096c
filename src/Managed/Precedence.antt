-- ===== src/Managed/Precedence.antt =====
-- Which file the search of python/src/aikernel_net/managed.py finds where there are several.
use aikernel_core.Base.{String, ◌≡◌, ◌⊎◌, true, false, List, [], ◌∷◌, ◌++◌}
use aikernel_core.Managed.{FilePath, child, Surroundings}

module _ (here : Surroundings) where
  -- The files that an assembly may be, by precedence.
  abbrev pub candidates : String → List FilePath → FilePath → List FilePath
  candidates name [] cached = cached ∷ []
  candidates name (root ∷ roots) cached = child root name ∷ candidates name roots cached

  abbrev pub NoneExists : List FilePath → Type 0
  NoneExists [] = Unit
  NoneExists (path ∷ paths) = (here.exists path ≡ false) × NoneExists paths

  -- The path exists, and none of those before it in the list does.
  pub record IsFirst (path : FilePath) (paths : List FilePath) : Type 0 where
    pub before : List FilePath
    pub after : List FilePath
    pub parts : paths ≡ before ++ path ∷ after
    pub there : here.exists path ≡ true
    pub missing : NoneExists before

  -- The first that exists, or the last resort if none does.
  abbrev pub IsChosen : List FilePath → FilePath → FilePath → Type 0
  IsChosen paths last_resort path = IsFirst path paths ⊎ (NoneExists paths × (path ≡ last_resort))
