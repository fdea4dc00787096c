-- ===== src/Contracts/Laws.antt =====
-- The metadata and the version of the descriptors of python/src/aikernel_net/core_contracts.py.
use mathlib.Core.Option.{some}
use aikernel_core.Base.{String, ◌≡◌, refl, false, List, ◌==◌, if◌then◌else◌}
use aikernel_core.Python.Dict.{get, put}
use aikernel_core.Python.Dict.Laws.{IsDict, get-put, put-IsDict}
use aikernel_core.Python.Sorting.{sorted_items}
use aikernel_core.Python.Sorting.Laws.{get-sorted_items, sorted_items-IsDict}
use aikernel_core.Contracts.{get_or, rom_storage_contract, vfs_git_contract}

module _ (d : List (String × String)) (h : IsDict d) where
  get-put_sorted :
      (key value k : String)
      → get k (put key value (sorted_items d)) ≡ (if key == k then some value else get k d)
  get-put_sorted key value k =
      rw (get-put key k value (sorted_items d), get-sorted_items k d h) refl

  get_or-put_sorted :
      (key value k default : String)
      → (key == k) ≡ false
      → get_or k default (put key value (sorted_items d)) ≡ get_or k default d
  unfolding get_or
  get_or-put_sorted key value k default ne = rw (get-put_sorted key value k, ne) refl

  -- Where the caller's metadata has no key twice, either contract has, under its own key, the scheme or
  -- the mode that it is given, whatever that metadata says; every other entry and the version are the
  -- caller's, and the version is 0.1.2 where the caller gives none. No key is there twice.
  pub contracts-metadata :
      (capability_id value k : String)
      → (IsDict (rom_storage_contract capability_id value d).metadata
          × (get k (rom_storage_contract capability_id value d).metadata
              ≡ (if "storageScheme" == k then some value else get k d))
          × ((rom_storage_contract capability_id value d).version ≡ get_or "version" "0.1.2" d))
        × (IsDict (vfs_git_contract capability_id value d).metadata
            × (get k (vfs_git_contract capability_id value d).metadata
                ≡ (if "repositoryMode" == k then some value else get k d))
            × ((vfs_git_contract capability_id value d).version ≡ get_or "version" "0.1.2" d))
  unfolding rom_storage_contract vfs_git_contract
  contracts-metadata capability_id value k = (
    (
      put-IsDict "storageScheme" value (sorted_items d) (sorted_items-IsDict d h),
      get-put_sorted "storageScheme" value k,
      get_or-put_sorted "storageScheme" value "version" "0.1.2" refl,
    ),
    (
      put-IsDict "repositoryMode" value (sorted_items d) (sorted_items-IsDict d h),
      get-put_sorted "repositoryMode" value k,
      get_or-put_sorted "repositoryMode" value "version" "0.1.2" refl,
    ),
  )
