-- ===== src/ConfigMap/Laws.antt =====
-- internal/controller/common/config.go: the items of the config map, when `getLogging` panics, and
-- what a role group without an authentication or with a failing one gets.
use airflow_operator.Prelude.{
  append_three, String, ◌≡◌, sym, ap, ◌∙◌, ◌≢◌, ◌↔◌, none, some, Option-cases, inl, inr, [], ◌∷◌,
  ◌++◌, arith,
}
use airflow_operator.Go.Text.{concat}
use airflow_operator.Go.Outcome.{Outcome, ok, panic, >>=-eq-ok, ok-injective, ◌>>=◌}
use airflow_operator.Go.Map.{string_key}
use airflow_operator.Api.{ConfigSpec}
use airflow_operator.Platform.{Platform, ConfigMapBase, Object}
use airflow_operator.Auth.Types.{Authentication}
use airflow_operator.Auth.Gather.{MapOrder}
use airflow_operator.Auth.Config.{get_config}
use airflow_operator.ConfigMap.Texts.{webserver_config}
use airflow_operator.ConfigMap.Builder.{ConfigMapBuilder}
use airflow_operator.ConfigMap.Logging.{levels, get_logging}
use airflow_operator.ConfigMap.Build.{get_airflow_config, get_vector, with_items, build}

-- If Build of the config map returns an object, the three files were made, the builder has three
-- items more, webserver_config.py, log_config.py and vector.yaml with these files in this order,
-- and the object is that of the builder.
pub build-items :
    (p : Platform) (l o : MapOrder) (b : ConfigMapBuilder) (object : Object) (base : ConfigMapBase)
    → build p l o b ≡ ok (object, base)
    → (airflow : String) × (logging : String) × (vector : String) × (get_airflow_config p l o b
        ≡ ok airflow)
      × (get_logging p b ≡ ok logging)
      × (get_vector p b ≡ ok vector)
      × (base.items
          ≡ b.base.items
            ++ ("webserver_config.py", airflow)
              ∷ ("log_config.py", logging)
              ∷ ("vector.yaml", vector)
              ∷ [])
      × (object ≡ p.config_map_object base)
unfolding build with_items
build-items p l o b object base h =
    let (airflow, ha, h₁) = >>=-eq-ok (get_airflow_config p l o b) _ h in
    let (logging, hl, h₂) = >>=-eq-ok (get_logging p b) (rest airflow) h₁ in
    let (vector, hv, h₃) = >>=-eq-ok (get_vector p b) (made airflow logging) h₂ in
    let same = ok-injective h₃ in
    (
      airflow,
      logging,
      vector,
      ha,
      hl,
      hv,
      sym (ap (λ (r : Object × ConfigMapBase). r.1.items) same)
          ∙ append_three b.base.items ("webserver_config.py", airflow) ("log_config.py", logging)
              ("vector.yaml", vector),
      cc same,
    )
  where
    made : String → String → String → Outcome (Object × ConfigMapBase)
    made airflow logging vector =
        let r = with_items airflow logging vector b.base in ok (p.config_map_object r, r)

    rest : String → String → Outcome (Object × ConfigMapBase)
    rest airflow logging = get_vector p b >>= made airflow logging

-- getLogging panics exactly if the role group has a configuration whose embedded
-- RoleGroupConfigSpec is nil.
pub get_logging-panic_iff :
    (p : Platform) (b : ConfigMapBuilder)
    → (get_logging p b ≡ panic)
      ↔ ((c : ConfigSpec) × (b.role_group_config ≡ some c) × (c.role_group_config_spec ≡ none))
unfolding get_logging levels
get_logging-panic_iff p b = (
  λ h. elim (Option-cases b.role_group_config) [
    | inl e ↦ absurd (ground arith)
    | inr (c, e) ↦ (c, e, ground arith)
  ],
  λ h. let (c, e, f) = h in rw (e, f),
)

-- webserver_config.py of a role group without an authentication is its fixed start.
pub get_airflow_config-plain :
    (p : Platform) (l o : MapOrder) (b : ConfigMapBuilder)
    → b.auth ≡ none
    → get_airflow_config p l o b ≡ ok (p.indent_tab_4_spaces (concat (webserver_config ∷ "" ∷ [])))
unfolding get_airflow_config
get_airflow_config-plain p l o b h = rw h

get_airflow_config-some :
    (p : Platform) (l o : MapOrder) (b : ConfigMapBuilder) (a : Authentication)
    → b.auth ≡ some a
    → get_airflow_config p l o b ≡ (
        get_config p l o a >>= λ auth.
        ok (p.indent_tab_4_spaces (concat (webserver_config ∷ auth ∷ []))))
unfolding get_airflow_config
get_airflow_config-some p l o b a h = rw h

-- If the builder has an authentication whose GetConfig returns no text, Build of the config map
-- returns no object.
pub build-auth_failure :
    (p : Platform) (l o : MapOrder) (b : ConfigMapBuilder) (a : Authentication)
    → b.auth ≡ some a
    → ((s : String) → get_config p l o a ≢ ok s)
    → (r : Object × ConfigMapBase) → build p l o b ≢ ok r
unfolding build
build-auth_failure p l o b a h n r e =
    let (airflow, ha, _) = >>=-eq-ok (get_airflow_config p l o b) _ e in
    let same = get_airflow_config-some p l o b a h in
    let (text, ht, _) = >>=-eq-ok (get_config p l o a) _ (sym same ∙ ha) in n text ht
