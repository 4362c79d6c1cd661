-- ===== src/Service/Branches.antt =====
-- internal/controller/common/service.go: which ports have a metrics service.
use airflow_operator.Prelude.{
  ℕ, String, ◌≡◌, refl, ap, ◌∙◌, ◌≢◌, ◌↔◌, ◌⊎◌, inl, inr, true, false, none, some, List, [], ◌∷◌,
  ◌++◌, All, arith, ◌==◌, eq_iff, Bool-cases, zero, suc, Option,
}
use airflow_operator.Go.Text.{ℤ, pos, negsuc}
use airflow_operator.Go.Outcome.{ok, panic, deref, ◌>>=◌}
use airflow_operator.Kube.{ContainerPort}
use airflow_operator.Framework.{Framework, RoleGroupInfo, ServiceReconciler}
use airflow_operator.Service.Defs.{
  metrics_port, is_positive, metrics_service, get_service_reconciler,
}

abbrev pub IsUnnamed : List ContainerPort → Type 0
IsUnnamed = All (λ q. q.name ≢ "metrics")

-- The first port that is named metrics has this number.
abbrev pub FirstMetrics : List ContainerPort → ℤ → Type 0
FirstMetrics ports number =
    (pre post : List ContainerPort) × (port : ContainerPort) × (ports ≡ pre ++ port ∷ post)
    × IsUnnamed pre
    × (port.name ≡ "metrics")
    × (port.container_port ≡ number)

metrics_port-cases :
    (ports : List ContainerPort)
    → (IsUnnamed ports × (metrics_port ports ≡ pos 0)) ⊎ FirstMetrics ports (metrics_port ports)
unfolding metrics_port
metrics_port-cases [] = inl (tt, refl)
metrics_port-cases (q ∷ ports) = elim (Bool-cases (q.name == "metrics")) [
  | inl e ↦ inr ([], ports, q, refl, tt, ground (arith, eq_iff q.name "metrics"), rw e refl)
  | inr e ↦
      let other : q.name ≢ "metrics" = λ h. ground (arith, h, eq_iff q.name "metrics") in
      elim (metrics_port-cases ports) [
        | inl (h, z) ↦ inl ((other, h), rw e z)
        | inr (pre, post, port, split, h, named, number) ↦
            inr (q ∷ pre, post, port, ap (λ qs. q ∷ qs) split, (other, h), named, rw e number)
      ]
]

metrics_port-unnamed : (ports : List ContainerPort) → IsUnnamed ports → metrics_port ports ≡ pos 0
unfolding metrics_port
metrics_port-unnamed [] h = refl
metrics_port-unnamed (q ∷ ports) (other, h) =
    let e : (q.name == "metrics") ≡ false = ground (arith, other, eq_iff q.name "metrics") in
    rw e (metrics_port-unnamed ports h)

metrics_port-first :
    (pre post : List ContainerPort) (port : ContainerPort)
    → IsUnnamed pre
    → port.name ≡ "metrics"
    → metrics_port (pre ++ port ∷ post) ≡ port.container_port
unfolding metrics_port
metrics_port-first [] post port h named =
    let e : (port.name == "metrics") ≡ true = ground (arith, named, eq_iff port.name "metrics") in
    rw e refl
metrics_port-first (q ∷ pre) post port (other, h) named =
    let e : (q.name == "metrics") ≡ false = ground (arith, other, eq_iff q.name "metrics") in
    rw e (metrics_port-first pre post port h named)

FirstMetrics-metrics_port :
    (ports : List ContainerPort) (number : ℤ)
    → FirstMetrics ports number
    → metrics_port ports ≡ number
FirstMetrics-metrics_port ports number (pre, post, port, split, h, named, same) =
    ap metrics_port split ∙ (metrics_port-first pre post port h named ∙ same)

-- No port is named metrics, or the first one has the number zero or a negative one.
abbrev pub IsNotServed : List ContainerPort → Type 0
IsNotServed ports =
    IsUnnamed ports ⊎ (FirstMetrics ports (pos 0) ⊎ ((n : ℕ) × FirstMetrics ports (negsuc n)))

abbrev pub IsServed : List ContainerPort → Type 0
IsServed ports = (n : ℕ) × FirstMetrics ports (pos (suc n))

by_sign :
    (ports : List ContainerPort) (z : ℤ) → FirstMetrics ports z → IsNotServed ports ⊎ IsServed ports
by_sign ports (pos zero) first = inl (inr (inl first))
by_sign ports (pos (suc n)) first = inr (n, first)
by_sign ports (negsuc n) first = inl (inr (inr (n, first)))

IsServed-cases : (ports : List ContainerPort) → IsNotServed ports ⊎ IsServed ports
IsServed-cases ports = elim (metrics_port-cases ports) [
  | inl (h, z) ↦ inl (inl h)
  | inr first ↦ by_sign ports (metrics_port ports) first
]

IsNotServed-is_positive :
    (ports : List ContainerPort) → IsNotServed ports → is_positive (metrics_port ports) ≡ false
IsNotServed-is_positive ports (inl h) = ap is_positive (metrics_port-unnamed ports h)
IsNotServed-is_positive ports (inr (inl first)) =
    ap is_positive (FirstMetrics-metrics_port ports (pos 0) first)
IsNotServed-is_positive ports (inr (inr (n, first))) =
    ap is_positive (FirstMetrics-metrics_port ports (negsuc n) first)

IsServed-is_positive :
    (ports : List ContainerPort) → IsServed ports → is_positive (metrics_port ports) ≡ true
IsServed-is_positive ports (n, first) =
    ap is_positive (FirstMetrics-metrics_port ports (pos (suc n)) first)

deref-ok {ℓ κ} :
    {A : Type ℓ} {B : Type κ} (o : Option A) (k : A → B) (a : A)
    → o ≡ some a
    → (s : B) × ((deref o >>= λ x. ok (k x)) ≡ ok s)
deref-ok o k a h = (k a, rw h)

metrics_service-ok :
    (f : Framework) (info : RoleGroupInfo) (port : ℤ) (m : List (String × String))
    → f.group_annotations info ≡ some m
    → (s : ServiceReconciler) × (metrics_service f info port ≡ ok s)
unfolding metrics_service
metrics_service-ok f info port m h = deref-ok (f.group_annotations info) _ m h

annotated {ℓ} : {A : Type ℓ} (o : Option A) → o ≢ none → (a : A) × (o ≡ some a)
annotated none h = absurd (h refl)
annotated (some a) h = (a, refl)

-- GetServiceReconciler returns nil exactly if no port is named metrics or the first one that is
-- has the number zero or a negative one; it panics exactly if that port has a positive number and
-- the role group's annotations are a nil map, and returns a service exactly if the number is
-- positive and the annotations are a map.
pub get_service_reconciler-branches :
    (f : Framework) (info : RoleGroupInfo) (ports : List ContainerPort)
    → ((get_service_reconciler f info ports ≡ ok none) ↔ IsNotServed ports)
      × ((get_service_reconciler f info ports ≡ panic)
          ↔ (IsServed ports × (f.group_annotations info ≡ none)))
      × (((s : ServiceReconciler) × (get_service_reconciler f info ports ≡ ok (some s)))
          ↔ (IsServed ports × ((m : List (String × String)) × (f.group_annotations info ≡ some m))))
unfolding get_service_reconciler metrics_service
get_service_reconciler-branches f info ports = elim (IsServed-cases ports) [
  | inl not_served ↦
      let e = IsNotServed-is_positive ports not_served in
      (
        (λ h. not_served, λ h. rw e),
        (λ h. absurd (ground arith), λ h. absurd (contrary e h.0)),
        (λ h. absurd (ground arith), λ h. absurd (contrary e h.0)),
      )
  | inr served ↦
      let e = IsServed-is_positive ports served in
      (
        (
          λ h. absurd (ground arith),
          λ h. absurd (contrary (IsNotServed-is_positive ports h) served),
        ),
        (λ h. (served, ground arith), λ h. rw (e, h.1)),
        (
          λ h. (served, annotated (f.group_annotations info) (ground arith)),
          λ h.
              let (service, made) = metrics_service-ok f info (metrics_port ports) h.1.0 h.1.1 in
              (service, rw (e, made)),
        ),
      )
]
  where
    contrary : is_positive (metrics_port ports) ≡ false → IsServed ports → ⊥
    contrary e served = let e' = IsServed-is_positive ports served in cc (e, e')
