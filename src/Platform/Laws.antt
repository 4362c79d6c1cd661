-- ===== src/Platform/Laws.antt =====
-- What the operator relies on in the code that it calls.
use airflow_operator.Prelude.{String, ◌≡◌, ◌↔◌, ◌≢◌, true, Option, none, some, List, [], ◌∷◌, ◌++◌}
use airflow_operator.Go.Map.{lookup, occurs, DistinctKeys, string_key}
use airflow_operator.Go.Text.{ℤ}
use airflow_operator.Kube.{SecretVolumeScope, Volume}
use airflow_operator.Api.{OverridesSpec, RoleGroupConfigSpec}
use airflow_operator.Platform.Defs.{
  Platform, Image, Options, StatefulSetCall, add_container, add_volumes, StatefulSetBase,
}

-- The volume of the secret operator has the name that it is given.
pub record NamesVolumes (p : Platform) : Type 0 where
  pub volume_name :
      (n c : String) (s : SecretVolumeScope) → (p.secret_operator_volume n c s).name ≡ n

-- Properties whose keys were added once each: `Keys` lists the keys that were added, and `Get`
-- gives each its value.
pub record KeepsProperties (p : Platform) : Type 0 where
  pub keys_iff :
      (adds : List (String × String)) (k : String)
      → DistinctKeys adds
      → (occurs k (p.property_keys adds) ≡ true) ↔ (lookup k adds ≢ none)
  pub get_lem :
      (adds : List (String × String)) (k v : String)
      → DistinctKeys adds
      → lookup k adds ≡ some v
      → p.property_get adds k ≡ v

-- The constructor of a stateful set keeps what it is given, and has made no call yet.
pub record KeepsArguments (p : Platform) : Type 0 where
  pub kept :
      (n : String) (r : Option ℤ) (i : Image) (v : Option OverridesSpec)
      (c : Option RoleGroupConfigSpec) (s : Options)
      → ((p.new_statefulset n r i v c s).name ≡ n)
        × ((p.new_statefulset n r i v c s).role_name ≡ s.role_name)
        × ((p.new_statefulset n r i v c s).role_group_name ≡ s.role_group_name)
        × ((p.new_statefulset n r i v c s).image ≡ i)
        × ((p.new_statefulset n r i v c s).calls ≡ [])

-- The volumes that were added, in order.
abbrev pub added_volumes : List StatefulSetCall → List Volume
added_volumes [] = []
added_volumes (add_container c ∷ calls) = added_volumes calls
added_volumes (add_volumes vs ∷ calls) = vs ++ added_volumes calls

-- `GetVolumes` gives the volumes that were added.
pub record ListsVolumes (p : Platform) : Type 0 where
  pub listed : (b : StatefulSetBase) → p.statefulset_volumes b ≡ added_volumes b.calls

-- The constructors of the two builders keep the name that they are given.
pub record NamesObjects (p : Platform) : Type 0 where
  pub config_map_name : (n : String) (s : Options) → (p.new_config_map n s).name ≡ n
  pub stateful_set_name :
      (n : String) (r : Option ℤ) (i : Image) (v : Option OverridesSpec)
      (c : Option RoleGroupConfigSpec) (s : Options)
      → (p.new_statefulset n r i v c s).name ≡ n
