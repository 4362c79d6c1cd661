-- ===== src/Cluster/Laws.antt =====
-- internal/controller/cluster.go: the image, and what `RegisterResource` adds on every path.
use airflow_operator.Prelude.{
  append_three, ℕ, suc, ◌≤◌, length, String, ◌≡◌, refl, sym, ap, ◌∙◌, Option, none, some, List, [],
  ◌∷◌, ◌++◌, append_assoc, Option-cases, inl, inr, append-nil, arith, ◌==◌, if◌then◌else◌,
}
use airflow_operator.Go.Outcome.{Done, Outcome, ok, err, panic, ok-injective}
use airflow_operator.Api.{ImageSpec}
use airflow_operator.Platform.{Platform, Image, ImageOptions}
use airflow_operator.Framework.{Framework}
use airflow_operator.Role.Scheduler.{SchedulersReconciler}
use airflow_operator.Role.CeleryExecutor.{CeleryExecutorsReconciler}
use airflow_operator.Role.Webserver.{WebserversReconciler}
use airflow_operator.Cluster.Defs.{
  Role, celery_role, schedulers_role, webservers_role, ClusterReconciler, get_image, GroupOrder,
  after_role, with_image, register_celery, register_schedulers, register_webservers,
  webservers_part, schedulers_part, register_resource,
}

-- `util.NewImage` keeps what it is given.
abbrev pub KeepsImage : Platform → Type 0
KeepsImage p =
    (product kubedoop version : String) (o : ImageOptions)
    → (p.new_image product kubedoop version o ≡ record {
      custom = o.custom;
      repo = o.repo;
      kubedoop_version = kubedoop;
      product_name = product;
      product_version = version;
      pull_policy = o.pull_policy;
    })

-- The image that a cluster asks for, in the build of that version.
abbrev pub expected_image : String → Option ImageSpec → Outcome Image
expected_image build_version none = panic
expected_image build_version (some spec) = ok (record {
  custom = spec.custom;
  repo = spec.repo;
  kubedoop_version = if spec.kubedoop_version == "" then build_version else spec.kubedoop_version;
  product_name = "airflow";
  product_version = if spec.product_version == "" then "2.10.5" else spec.product_version;
  pull_policy = spec.pull_policy;
})

-- If the image constructor keeps what it is given, GetImage gives the spec's image, with 2.10.5
-- for an empty product version and the build's version for an empty Kubedoop version, and panics
-- without an image spec.
pub get_image_lem :
    (f : Framework) (build_version : String) (r : ClusterReconciler)
    → KeepsImage f.platform
    → get_image f build_version r ≡ expected_image build_version r.base.spec.image
unfolding get_image
get_image_lem f build_version r keeps = elim (Option-cases r.base.spec.image) [
  | inl e ↦ rw e
  | inr (spec, e) ↦ rw (e, keeps)
]

-- A part of `RegisterResource` whose result has no error.
after_role-ok {ℓ} :
    {R : Type ℓ} (role : R → Role) (q : Outcome Done × R) (r : ClusterReconciler)
    (next : ClusterReconciler → Outcome Done × ClusterReconciler) (r' : ClusterReconciler)
    → after_role role q r next ≡ (ok tt, r')
    → (a : R) × (q ≡ (ok tt, a))
      × (next (record r { resources = r.resources ++ role a ∷ [] }) ≡ (ok tt, r'))
after_role-ok role (ok d, a) r next r' h = (a, refl, h)
after_role-ok role (err e, a) r next r' h =
    let q : err e ≡ ok tt = ap (λ (x : Outcome Done × ClusterReconciler). x.0) h in absurd (cc q)
after_role-ok role (panic, a) r next r' h =
    let q : panic ≡ ok tt = ap (λ (x : Outcome Done × ClusterReconciler). x.0) h in absurd (cc q)

with_image-ok :
    (i : Outcome Image) (r : ClusterReconciler) (next : Image → Outcome Done × ClusterReconciler)
    (r' : ClusterReconciler)
    → with_image i r next ≡ (ok tt, r')
    → (image : Image) × (i ≡ ok image) × (next image ≡ (ok tt, r'))
with_image-ok (ok image) r next r' h = (image, refl, h)
with_image-ok (err e) r next r' h =
    let q : err e ≡ ok tt = ap (λ (x : Outcome Done × ClusterReconciler). x.0) h in absurd (cc q)
with_image-ok panic r next r' h =
    let q : panic ≡ ok tt = ap (λ (x : Outcome Done × ClusterReconciler). x.0) h in absurd (cc q)

abbrev with_role : Role → ClusterReconciler → ClusterReconciler
with_role role r = record r { resources = r.resources ++ role ∷ [] }

webservers_part-ok :
    (f : Framework) (build_version : String) (order : GroupOrder) (r r' : ClusterReconciler)
    → webservers_part f build_version order r ≡ (ok tt, r')
    → (image : Image) × (w : WebserversReconciler) × (get_image f build_version r ≡ ok image)
      × (register_webservers f order image r ≡ (ok tt, w))
      × (with_role (webservers_role w) r ≡ r')
unfolding webservers_part
webservers_part-ok f build_version order r r' h =
    let (image, hi, h₁) = with_image-ok (get_image f build_version r) r _ r' h in
    let (w, hw, h₂) =
      after_role-ok webservers_role (register_webservers f order image r) r _ r' h₁ in
    (image, w, hi, hw, ap (λ (q : Outcome Done × ClusterReconciler). q.1) h₂)

schedulers_part-ok :
    (f : Framework) (build_version : String) (order : GroupOrder) (r r' : ClusterReconciler)
    → schedulers_part f build_version order r ≡ (ok tt, r')
    → (image : Image) × (s : SchedulersReconciler) × (get_image f build_version r ≡ ok image)
      × (register_schedulers f order image r ≡ (ok tt, s))
      × (webservers_part f build_version order (with_role (schedulers_role s) r) ≡ (ok tt, r'))
unfolding schedulers_part
schedulers_part-ok f build_version order r r' h =
    let (image, hi, h₁) = with_image-ok (get_image f build_version r) r _ r' h in
    let (s, hs, h₂) =
      after_role-ok schedulers_role (register_schedulers f order image r) r _ r' h₁ in
    (image, s, hi, hs, h₂)

-- If RegisterResource returns nil, the image is there, the three roles have registered their
-- resources without an error with that image, and the cluster keeps its base and has three
-- resources more: the Celery executors, the schedulers and the webservers, in this order.
pub register_resource-ok :
    (f : Framework) (build_version : String) (order : GroupOrder) (r r' : ClusterReconciler)
    → register_resource f build_version order r ≡ (ok tt, r')
    → (image : Image) × (c : CeleryExecutorsReconciler) × (s : SchedulersReconciler)
      × (w : WebserversReconciler) × (get_image f build_version r ≡ ok image)
      × (register_celery f order image r ≡ (ok tt, c))
      × (register_schedulers f order image r ≡ (ok tt, s))
      × (register_webservers f order image r ≡ (ok tt, w))
      × (r'.resources ≡ r.resources ++ celery_role c ∷ schedulers_role s ∷ webservers_role w ∷ [])
      × (r'.base ≡ r.base)
unfolding register_resource schedulers_part webservers_part get_image register_celery
    register_schedulers register_webservers
register_resource-ok f build_version order r r' h =
    let (image, hi, h₁) = with_image-ok (get_image f build_version r) r _ r' h in
    let (c, hc, h₂) = after_role-ok celery_role (register_celery f order image r) r _ r' h₁ in
    let (i₂, s, hi₂, hs, h₃) =
      schedulers_part-ok f build_version order (with_role (celery_role c) r) r' h₂ in
    let (i₃, w, hi₃, hw, h₄) =
      webservers_part-ok f build_version order
        (with_role (schedulers_role s) (with_role (celery_role c) r)) r' h₃ in
    let e₂ : image ≡ i₂ = ok-injective (sym hi ∙ hi₂) in
    let e₃ : image ≡ i₃ = ok-injective (sym hi ∙ hi₃) in
    (
      image,
      c,
      s,
      w,
      hi,
      hc,
      ap (λ i. register_schedulers f order i r) e₂ ∙ hs,
      ap (λ i. register_webservers f order i r) e₃ ∙ hw,
      sym (ap (λ (q : ClusterReconciler). q.resources) h₄)
          ∙ append_three r.resources (celery_role c) (schedulers_role s) (webservers_role w),
      sym (ap (λ (q : ClusterReconciler). q.base) h₄),
    )

-- What a part of `RegisterResource` may do to the cluster: add at most `n` roles.
Adds : ℕ → ClusterReconciler → Outcome Done × ClusterReconciler → Type 0
Adds n r q =
    (added : List Role) × (q.1 ≡ record r { resources = r.resources ++ added }) × (length added ≤ n)

Adds-none : (n : ℕ) (r : ClusterReconciler) (o : Outcome Done) → Adds n r (o, r)
unfolding Adds
Adds-none n r o =
    ([], ap (λ xs. record r { resources = xs }) (sym (append-nil r.resources)), omega arith)

after_role-Adds {ℓ} :
    {R : Type ℓ} (role : R → Role) (q : Outcome Done × R) (r : ClusterReconciler)
    (next : ClusterReconciler → Outcome Done × ClusterReconciler) (n : ℕ)
    → ((r' : ClusterReconciler) → Adds n r' (next r'))
    → Adds (suc n) r (after_role role q r next)
unfolding Adds
after_role-Adds role (ok d, a) r next n each =
    let (added, e, bound) = each (with_role (role a) r) in
    (
      role a ∷ added,
      e ∙ ap (λ xs. record r { resources = xs }) (append_assoc r.resources (role a ∷ []) added),
      omega (arith, bound),
    )
after_role-Adds role (err e, a) r next n each = Adds-none (suc n) r (err e)
after_role-Adds role (panic, a) r next n each = Adds-none (suc n) r panic

with_image-Adds :
    (i : Outcome Image) (r : ClusterReconciler) (next : Image → Outcome Done × ClusterReconciler)
    (n : ℕ)
    → ((image : Image) → Adds n r (next image))
    → Adds n r (with_image i r next)
unfolding Adds
with_image-Adds (ok image) r next n each = each image
with_image-Adds (err e) r next n each = Adds-none n r (err e)
with_image-Adds panic r next n each = Adds-none n r panic

register_resource-Adds :
    (f : Framework) (build_version : String) (order : GroupOrder) (r : ClusterReconciler)
    → Adds 3 r (register_resource f build_version order r)
unfolding register_resource schedulers_part webservers_part
register_resource-Adds f build_version order r = with_image-Adds (image r) r _ 3 (λ i₁.
    after_role-Adds celery_role (register_celery f order i₁ r) r _ 2 (λ r₁.
      with_image-Adds (image r₁) r₁ _ 2 (λ i₂.
        after_role-Adds schedulers_role (register_schedulers f order i₂ r₁) r₁ _ 1 (λ r₂.
          with_image-Adds (image r₂) r₂ _ 1 (λ i₃.
            after_role-Adds webservers_role (register_webservers f order i₃ r₂) r₂ _ 0
              (λ r₃. Adds-none 0 r₃ (ok tt)))))))
  where
    image : ClusterReconciler → Outcome Image
    image c = get_image f build_version c

-- On every path, an error or a panic included, RegisterResource only adds roles behind those that
-- the cluster has, at most three, and changes nothing else of the cluster.
pub register_resource-adds :
    (f : Framework) (build_version : String) (order : GroupOrder) (r : ClusterReconciler)
    → (added : List Role) × ((register_resource f build_version order r).1
        ≡ record r { resources = r.resources ++ added })
      × (length added ≤ 3)
unfolding Adds
register_resource-adds = register_resource-Adds
