-- ===== src/Command/Laws.antt =====
-- cmd/main.go: which protocols the servers offer, and how `main` ends.
use airflow_operator.Prelude.{
  ◌≡◌, refl, sym, ap, ◌∙◌, ◌↔◌, ◌≢◌, ◌⊎◌, Bool, true, false, Bool-cases, inl, inr, List, [], ◌∷◌,
  ◌++◌, All, if◌then◌else◌,
}
use airflow_operator.Command.Defs.{
  Flags, TlsConfig, TlsOption, disable_http2, tls_opts, webhook_server_options,
  metrics_server_options, manager_options, Build, Step, End, exit_0, exit_1, returned,
  print_version, new_app_info, get_config, new_manager, setup_controller, add_healthz_check,
  add_readyz_check, start_manager, attempt, main,
}

-- What a server that applies its options in order offers.
abbrev pub applied : List TlsOption → TlsConfig → TlsConfig
applied [] c = c
applied (o ∷ os) c = applied os (o c)

-- A webhook or metrics server that applies its TLS options in their order offers only http/1.1
-- unless the flag enables HTTP/2, and then keeps the protocols of its configuration.
pub servers-http2 :
    (flags : Flags) (c : TlsConfig)
    → (applied (webhook_server_options flags).tls_opts c
        ≡ (if flags.enable_http2 then c else record { next_protos = "http/1.1" ∷ [] }))
      × (applied (metrics_server_options flags).tls_opts c
          ≡ (if flags.enable_http2 then c else record { next_protos = "http/1.1" ∷ [] }))
unfolding webhook_server_options metrics_server_options tls_opts disable_http2
servers-http2 flags c = elim (Bool-cases flags.enable_http2) [
  | inl e ↦ (rw e, rw e)
  | inr e ↦ (rw e, rw e)
]

-- The six calls of a start that can fail, in their order.
abbrev pub startup : Flags → List Step
startup flags =
    get_config
    ∷ new_manager (manager_options flags)
    ∷ setup_controller
    ∷ add_healthz_check
    ∷ add_readyz_check
    ∷ start_manager
    ∷ []

-- Attempts of a list of calls.
run_steps : (fails : Step → Bool) → List Step → End × List Step
unfolding attempt
run_steps fails [] = (returned, [])
run_steps fails (s ∷ ss) = attempt fails s (run_steps fails ss)

abbrev pub Passes : (fails : Step → Bool) → List Step → Type 0
Passes fails = All (λ t. fails t ≡ false)

-- The calls that were made end with the first one of the list that fails.
abbrev pub StopsAfter : (fails : Step → Bool) → List Step → List Step → Type 0
StopsAfter fails steps calls =
    (pre post : List Step) × (s : Step) × (steps ≡ pre ++ s ∷ post)
    × Passes fails pre
    × (fails s ≡ true)
    × (calls ≡ pre ++ s ∷ [])

run_steps-stop :
    (fails : Step → Bool) (pre : List Step) (s : Step) (post : List Step)
    → Passes fails pre
    → fails s ≡ true
    → run_steps fails (pre ++ s ∷ post) ≡ (exit_1, pre ++ s ∷ [])
unfolding run_steps attempt
run_steps-stop fails [] s post h failed = rw failed
run_steps-stop fails (t ∷ pre) s post (passed, h) failed =
    rw (passed, run_steps-stop fails pre s post h failed)

run_steps-returned :
    (fails : Step → Bool) (ss : List Step) → Passes fails ss → run_steps fails ss ≡ (returned, ss)
unfolding run_steps attempt
run_steps-returned fails [] h = refl
run_steps-returned fails (s ∷ ss) (passed, h) = rw (passed, run_steps-returned fails ss h)

run_steps-cases :
    (fails : Step → Bool) (ss : List Step)
    → Passes fails ss
      ⊎ ((pre post : List Step) × (s : Step) × (ss ≡ pre ++ s ∷ post)
          × Passes fails pre
          × (fails s ≡ true))
run_steps-cases fails [] = inl tt
run_steps-cases fails (s ∷ ss) = elim (Bool-cases (fails s)) [
  | inl failed ↦ inr ([], ss, s, refl, tt, failed)
  | inr passed ↦ elim (run_steps-cases fails ss) [
    | inl h ↦ inl (passed, h)
    | inr (pre, post, t, split, h, failed) ↦
        inr (s ∷ pre, post, t, ap (λ ts. s ∷ ts) split, (passed, h), failed)
  ]
]

StopsAfter-run_steps :
    (fails : Step → Bool) (ss calls : List Step)
    → StopsAfter fails ss calls
    → run_steps fails ss ≡ (exit_1, calls)
StopsAfter-run_steps fails ss calls (pre, post, s, split, h, failed, same) =
    ap (run_steps fails) split
    ∙ (run_steps-stop fails pre s post h failed ∙ ap (λ cs. (exit_1, cs)) (sym same))

-- How a list of attempts ends.
run_steps-ends :
    (fails : Step → Bool) (ss calls : List Step)
    → ((run_steps fails ss ≡ (returned, calls)) ↔ (Passes fails ss × (calls ≡ ss)))
      × ((run_steps fails ss ≡ (exit_1, calls)) ↔ StopsAfter fails ss calls)
run_steps-ends fails ss calls = elim (run_steps-cases fails ss) [
  | inl h ↦
      let r = run_steps-returned fails ss h in
      (
        (λ k. (h, cc (k, r)), λ k. rw (r, k.1)),
        (λ k. absurd (cc (k, r)), StopsAfter-run_steps fails ss calls),
      )
  | inr (pre, post, s, split, h, failed) ↦
      let r : run_steps fails ss ≡ (exit_1, pre ++ s ∷ []) =
        ap (run_steps fails) split ∙ run_steps-stop fails pre s post h failed in
      (
        (
          λ k. absurd (cc (k, r)),
          λ k. let q = run_steps-returned fails ss k.0 in absurd (cc (q, r)),
        ),
        (λ k. (pre, post, s, split, h, failed, cc (k, r)), StopsAfter-run_steps fails ss calls),
      )
]

main-started :
    (build : Build) (fails : Step → Bool) (flags : Flags)
    → flags.show_version ≡ false
    → main build fails flags ≡ run_steps fails (startup flags)
unfolding main run_steps
main-started build fails flags started =
    ap
      (λ b.
        if b
        then (exit_0, print_version (new_app_info build "airflow-operator") ∷ [])
        else run_steps fails (startup flags))
      started

main-printed :
    (build : Build) (fails : Step → Bool) (flags : Flags)
    → flags.show_version ≡ true
    → main build fails flags ≡ (exit_0, print_version (new_app_info build "airflow-operator") ∷ [])
unfolding main run_steps
main-printed build fails flags e =
    ap
      (λ b.
        if b
        then (exit_0, print_version (new_app_info build "airflow-operator") ∷ [])
        else run_steps fails (startup flags))
      e

run_steps-not_exit_0 :
    (fails : Step → Bool) (ss calls : List Step) → run_steps fails ss ≢ (exit_0, calls)
run_steps-not_exit_0 fails ss calls k = elim (run_steps-cases fails ss) [
  | inl h ↦ let r = run_steps-returned fails ss h in cc (k, r)
  | inr (pre, post, s, split, h, failed) ↦
      let r = ap (run_steps fails) split ∙ run_steps-stop fails pre s post h failed in cc (k, r)
]

-- With the version flag main prints the version under the operator's name and exits with code 0,
-- and only then. Without it, main returns exactly if none of the six calls fails, that of the
-- configuration, the manager with its options, the controller, the health check, the ready check
-- and the start of the manager, and has then made these six in this order; and it exits with code
-- 1 exactly after the first of them that fails.
pub main-ends :
    (build : Build) (fails : Step → Bool) (flags : Flags) (calls : List Step)
    → ((main build fails flags ≡ (exit_0, calls)) ↔ (
        (flags.show_version ≡ true)
        × (calls ≡ print_version (new_app_info build "airflow-operator") ∷ [])))
      × ((main build fails flags ≡ (returned, calls))
          ↔ ((flags.show_version ≡ false) × Passes fails (startup flags) × (calls ≡ startup flags)))
      × ((main build fails flags ≡ (exit_1, calls))
          ↔ ((flags.show_version ≡ false) × StopsAfter fails (startup flags) calls))
main-ends build fails flags calls = elim (Bool-cases flags.show_version) [
  | inl e ↦
      let r = main-printed build fails flags e in
      (
        (λ k. (e, cc (k, r)), λ k. rw (r, k.1)),
        (λ k. absurd (cc (k, r)), λ k. absurd (cc (e, k.0))),
        (λ k. absurd (cc (k, r)), λ k. absurd (cc (e, k.0))),
      )
  | inr e ↦
      let r = main-started build fails flags e in
      let ends = run_steps-ends fails (startup flags) calls in
      (
        (
          λ k. absurd (run_steps-not_exit_0 fails (startup flags) calls (sym r ∙ k)),
          λ k. absurd (cc (e, k.0)),
        ),
        (λ k. let q = ends.0.0 (sym r ∙ k) in (e, q.0, q.1), λ k. r ∙ ends.0.1 (k.1, k.2)),
        (λ k. (e, ends.1.0 (sym r ∙ k)), λ k. r ∙ ends.1.1 k.1),
      )
]
