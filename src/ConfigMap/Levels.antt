-- ===== src/ConfigMap/Levels.antt =====
-- internal/controller/common/config.go: the levels that log_config.py is written with.
use mathlib.Core.Path.{subst}
use airflow_operator.Prelude.{
  String, ◌≡◌, refl, sym, ◌∙◌, ◌↔◌, ◌⊎◌, Option, none, some, Option-cases, inl, inr, [], ◌∷◌,
}
use airflow_operator.Go.FilePath.{path_join}
use airflow_operator.Go.Outcome.{ok, panic, >>=-eq-ok, ok-injective}
use airflow_operator.Go.Map.{lookup, string_key}
use airflow_operator.Api.{
  ConfigSpec, LoggingSpec, RoleGroupConfigSpec, LoggingConfigSpec, LogLevelSpec,
}
use airflow_operator.Platform.{Platform}
use airflow_operator.ConfigMap.Builder.{ConfigMapBuilder}
use airflow_operator.ConfigMap.Texts.{log_config}
use airflow_operator.ConfigMap.Logging.{Levels, level_or_default, levels, get_logging}

-- The level that a setting stands for.
pub data IsLevel : Option LogLevelSpec → String → Type 0 where
  unset : IsLevel none "INFO"
  set : (l : LogLevelSpec) → IsLevel (some l) l.level

-- The role group's configuration has a logging map.
abbrev HasLogging : ConfigMapBuilder → Option LoggingSpec → Type 0
HasLogging b logging =
    (c : ConfigSpec) × (spec : RoleGroupConfigSpec) × (b.role_group_config ≡ some c)
    × (c.role_group_config_spec ≡ some spec)
    × (spec.logging ≡ logging)

-- The levels of the file, of the console and of the root logger.
pub data HasLevels (b : ConfigMapBuilder) : (file console root : String) → Type 0 where
  no_config : b.role_group_config ≡ none → HasLevels b "INFO" "INFO" "INFO"
  no_logging : HasLogging b none → HasLevels b "INFO" "INFO" "INFO"
  no_entry :
      (l : LoggingSpec)
      → HasLogging b (some l)
      → lookup b.base.role_name l.containers ≡ none
      → HasLevels b "INFO" "INFO" "INFO"
  entry :
      {file console root : String} (l : LoggingSpec) (x : LoggingConfigSpec)
      → HasLogging b (some l)
      → lookup b.base.role_name l.containers ≡ some x
      → IsLevel x.file file
      → IsLevel x.console console
      → IsLevel (lookup "root" x.loggers) root
      → HasLevels b file console root

abbrev as_levels : (file console root : String) → Levels
as_levels file console root = record { file = file; console = console; root = root }

level_or_default-IsLevel : (o : Option LogLevelSpec) → IsLevel o (level_or_default o)
unfolding level_or_default
level_or_default-IsLevel none = unset
level_or_default-IsLevel (some l) = set l

IsLevel-level_or_default :
    (o : Option LogLevelSpec) (level : String) → IsLevel o level → level_or_default o ≡ level
unfolding level_or_default
IsLevel-level_or_default _ _ unset = refl
IsLevel-level_or_default _ _ (set l) = refl

levels-entry :
    (b : ConfigMapBuilder) (l : LoggingSpec) (x : LoggingConfigSpec)
    → HasLogging b (some l)
    → lookup b.base.role_name l.containers ≡ some x
    → levels b
      ≡ ok (
          as_levels
            (level_or_default x.file)
            (level_or_default x.console)
            (level_or_default (lookup "root" x.loggers)))
unfolding levels level_or_default
levels-entry b l x (c, spec, e, e₁, e₂) e₃ = rw (e, e₁, e₂, e₃)

levels-defaults :
    (b : ConfigMapBuilder)
    → (b.role_group_config ≡ none)
      ⊎ (HasLogging b none
          ⊎ ((l : LoggingSpec) × HasLogging b (some l)
              × (lookup b.base.role_name l.containers ≡ none)))
    → levels b ≡ ok (as_levels "INFO" "INFO" "INFO")
unfolding levels
levels-defaults b (inl e) = rw e
levels-defaults b (inr (inl (c, spec, e, e₁, e₂))) = rw (e, e₁, e₂)
levels-defaults b (inr (inr (l, (c, spec, e, e₁, e₂), e₃))) = rw (e, e₁, e₂, e₃)

HasLevels-levels :
    (b : ConfigMapBuilder) (file console root : String)
    → HasLevels b file console root
    → levels b ≡ ok (as_levels file console root)
HasLevels-levels b _ _ _ (no_config e) = levels-defaults b (inl e)
HasLevels-levels b _ _ _ (no_logging h) = levels-defaults b (inr (inl h))
HasLevels-levels b _ _ _ (no_entry l h e) = levels-defaults b (inr (inr (l, h, e)))
HasLevels-levels b file console root (entry l x h e f k r) =
    levels-entry b l x h e
    ∙ rw
        (
          IsLevel-level_or_default x.file file f,
          IsLevel-level_or_default x.console console k,
          IsLevel-level_or_default (lookup "root" x.loggers) root r,
        )
        refl

levels-panic :
    (b : ConfigMapBuilder) (c : ConfigSpec)
    → b.role_group_config ≡ some c
    → c.role_group_config_spec ≡ none
    → levels b ≡ panic
unfolding levels
levels-panic b c e e₁ = rw (e, e₁)

-- Where the configuration is not refused, it has levels.
levels-HasLevels :
    (b : ConfigMapBuilder) (v : Levels) → levels b ≡ ok v → HasLevels b v.file v.console v.root
levels-HasLevels b v h = elim (Option-cases b.role_group_config) [
  | inl e ↦ at (as_levels "INFO" "INFO" "INFO") (levels-defaults b (inl e)) (no_config e)
  | inr (c, e) ↦ elim (Option-cases c.role_group_config_spec) [
    | inl e₁ ↦ absurd (refused c e e₁)
    | inr (spec, e₁) ↦ elim (Option-cases spec.logging) [
      | inl e₂ ↦
          let g : HasLogging b none = (c, spec, e, e₁, e₂) in
          at (as_levels "INFO" "INFO" "INFO") (levels-defaults b (inr (inl g))) (no_logging g)
      | inr (l, e₂) ↦
          let g : HasLogging b (some l) = (c, spec, e, e₁, e₂) in
          elim (Option-cases (lookup b.base.role_name l.containers)) [
            | inl e₃ ↦
                at (as_levels "INFO" "INFO" "INFO") (levels-defaults b (inr (inr (l, g, e₃))))
                  (no_entry l g e₃)
            | inr (x, e₃) ↦ at _ (levels-entry b l x g e₃) (
                entry l x g e₃ (level_or_default-IsLevel x.file)
                  (level_or_default-IsLevel x.console)
                  (level_or_default-IsLevel (lookup "root" x.loggers)))
          ]
    ]
  ]
]
  where
    at :
        (w : Levels)
        → levels b ≡ ok w
        → HasLevels b w.file w.console w.root
        → HasLevels b v.file v.console v.root
    at w made g =
        subst (λ (u : Levels). HasLevels b u.file u.console u.root) (ok-injective (sym made ∙ h)) g

    refused : (c : ConfigSpec) → b.role_group_config ≡ some c → c.role_group_config_spec ≡ none → ⊥
    refused c e e₁ = let made = levels-panic b c e e₁ in cc (made, h)

-- getLogging returns a text exactly if the role group has levels, which are INFO without a
-- configuration, without a logging map and without an entry for the role in it, and which with an
-- entry are its level of the file, its level of the console and its level of the logger root, each
-- INFO if it is not set; and the text is log_config.py, indented, of the role's log directory, the
-- file airflow.log.json in it and these levels.
pub get_logging-HasLevels :
    (p : Platform) (b : ConfigMapBuilder) (text : String)
    → (get_logging p b ≡ ok text) ↔ (
        (file console root : String) × HasLevels b file console root
        × (text
            ≡ p.indent_tab_4_spaces (
                log_config
                  (path_join (p.kubedoop_log_dir ∷ b.base.role_name ∷ []))
                  (path_join (p.kubedoop_log_dir ∷ b.base.role_name ∷ "airflow.log.json" ∷ []))
                  console
                  file
                  root)))
unfolding get_logging
get_logging-HasLevels p b text = (
  λ h.
      let (v, made, rest) = >>=-eq-ok (levels b) _ h in
      (v.file, v.console, v.root, levels-HasLevels b v made, sym (ok-injective rest)),
  λ h.
      let (file, console, root, has, same) = h in
      rw (HasLevels-levels b file console root has, same),
)
