-- ===== src/Tests/Setup/Platforms.antt =====
-- A platform whose functions are written out, and what they keep.
use mathlib.Core.List.{Permᴰ}
use mathlib.Core.List.Permᴰ
use airflow_operator.Prelude.{
  String, ◌≡◌, ◌≢◌, ◌↔◌, refl, true, Option, none, some, List, [], ◌∷◌, ◌==◌, arith, eq_iff,
  if◌then◌else◌,
}
use airflow_operator.Go.Text.{pos}
use airflow_operator.Go.Outcome.{ok, Error, library}
use airflow_operator.Go.Map.{Order, lookup, occurs, string_key}
use airflow_operator.Kube.{ephemeral}
use airflow_operator.Platform.{
  Platform, OidcProvider, LdapProvider, AuthenticationProvider, Got, found, not_found, failed,
  added_volumes, NamesVolumes, KeepsProperties, ListsVolumes,
}

abbrev pub same_order {ℓ} : {A : Type ℓ} → Order A
same_order = record { visit = λ xs. xs; visits = λ xs. Permᴰ.refl xs }

abbrev pub swap_first {ℓ} : {A : Type ℓ} → List A → List A
swap_first (x ∷ y ∷ xs) = y ∷ x ∷ xs
swap_first xs = xs

pub swap_first-Perm {ℓ} : {A : Type ℓ} (xs : List A) → Permᴰ (swap_first xs) xs
swap_first-Perm [] = Permᴰ.refl []
swap_first-Perm (x ∷ []) = Permᴰ.refl (x ∷ [])
swap_first-Perm (x ∷ y ∷ xs) = Permᴰ.swap refl refl

-- The first two entries the other way round.
abbrev pub swapped_order {ℓ} : {A : Type ℓ} → Order A
swapped_order = record { visit = swap_first; visits = swap_first-Perm }

abbrev pub directory : LdapProvider
directory = record {
  hostname = "ldap.example.com";
  port = pos 389;
  search_base = "dc=example,dc=com";
  search_filter = "";
  ldap_field_names = none;
  bind_credentials = some (record { secret_class = "bind"; scope = none });
}

-- A directory that anybody can read.
abbrev pub open_directory : LdapProvider
open_directory = record directory { bind_credentials = none }

abbrev pub keycloak : OidcProvider
keycloak = record {
  hostname = "keycloak";
  port = pos 0;
  root_path = "/realms/main";
  scopes = "openid" ∷ [];
  provider_hint = "keycloak";
}

abbrev pub refused : Error
refused = library "connection refused"

abbrev pub get_class : String → Got (Option AuthenticationProvider)
get_class name =
    if name == "ldap"
    then found (some (record { oidc = none; ldap = some directory }))
    else if name == "open"
    then found (some (record { oidc = none; ldap = some open_directory }))
    else if name == "oidc"
    then found (some (record { oidc = some keycloak; ldap = none }))
    else if name == "empty"
    then found (some (record { oidc = none; ldap = none }))
    else if name == "down"
    then failed refused
    else not_found

abbrev pub value_or_empty : Option String → String
value_or_empty none = ""
value_or_empty (some v) = v

abbrev pub keys : List (String × String) → List String
keys [] = []
keys ((k, v) ∷ adds) = k ∷ keys adds

abbrev pub test_platform : Platform
test_platform = record {
  kubedoop_root = "/kubedoop";
  kubedoop_config_dir_mount = "/kubedoop/mount/config";
  kubedoop_log_dir = "/kubedoop/log";
  kubedoop_secret_dir = "/kubedoop/secret";
  service_scope = "service";
  get_authentication_class = get_class;
  secret_operator_volume = λ n c s. record { name = n; source = ephemeral c s };
  property_keys = keys;
  property_get = λ adds k. value_or_empty (lookup k adds);
  parse_template = λ t m. ok t;
  indent_tab_4_spaces = λ s. s;
  vector_shutdown_file = "/kubedoop/log/_vector/shutdown";
  vector_watcher_dir = "/kubedoop/log/_vector";
  new_statefulset = λ n r i v c s. record {
    name = n;
    role_name = s.role_name;
    role_group_name = s.role_group_name;
    image = i;
    replicas = r;
    overrides = v;
    role_group_config = c;
    options = s;
    calls = [];
  };
  statefulset_object = λ b. ok (record { object_text = b.name });
  statefulset_volumes = λ b. added_volumes b.calls;
  vector_container = λ n v i. record {
    name = "vector";
    image = i;
    command = [];
    args = [];
    env = [];
    volume_mounts = [];
  };
  new_config_map = λ n s. record {
    name = n;
    cluster_name = s.cluster_name;
    role_name = s.role_name;
    role_group_name = s.role_group_name;
    options = s;
    items = [];
  };
  config_map_object = λ b. record { object_text = b.name };
  make_vector_yaml = λ c r g a. ok a;
  new_image = λ product kubedoop version o. record {
    custom = o.custom;
    repo = o.repo;
    kubedoop_version = kubedoop;
    product_name = product;
    product_version = version;
    pull_policy = o.pull_policy;
  };
}

pub test_platform-NamesVolumes : NamesVolumes test_platform
test_platform-NamesVolumes = record { volume_name = λ n c s. refl }

pub test_platform-ListsVolumes : ListsVolumes test_platform
test_platform-ListsVolumes = record { listed = λ b. refl }

keys-occurs :
    (adds : List (String × String)) (k : String)
    → (occurs k (keys adds) ≡ true) ↔ (lookup k adds ≢ none)
unfolding lookup
keys-occurs [] k = (λ h. cc h, λ h. absurd (h refl))
keys-occurs ((j, v) ∷ adds) k = ground (arith, eq_iff j k, eq_iff k j, keys-occurs adds k)

pub test_platform-KeepsProperties : KeepsProperties test_platform
test_platform-KeepsProperties = record {
  keys_iff = λ adds k d. keys-occurs adds k;
  get_lem = λ adds k v d h. rw h;
}
