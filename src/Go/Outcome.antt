-- ===== src/Go/Outcome.antt =====
-- The result of a Go call that returns an error or panics.
use airflow_operator.Prelude.{String, ◌≡◌, ◌≢◌, refl, Option, none, some, List, [], ◌∷◌, ◌++◌}

-- An `error`: one that the operator makes by `fmt.Errorf`, or one that a library returned.
pub data Error : Type 0 where
  errorf : String → Error
  library : String → Error

-- `panic` is a nil dereference or a write to a nil map: the goroutine does not return.
pub data Outcome {ℓ} (A : Type ℓ) : Type ℓ where
  ok : A → Outcome A
  err : Error → Outcome A
  panic : Outcome A

-- What a call that returns only an error returns with a nil error.
abbrev pub Done : Type 0
Done = Unit

infixl 5 ◌>>=◌ ◌>>◌
abbrev pub ◌>>=◌ {ℓ κ} : {A : Type ℓ} {B : Type κ} → Outcome A → (A → Outcome B) → Outcome B
ok a >>= f = f a
err e >>= f = err e
panic >>= f = panic

abbrev pub ◌>>◌ {ℓ κ} : {A : Type ℓ} {B : Type κ} → Outcome A → Outcome B → Outcome B
m >> k = m >>= λ _. k

-- `*p` and `p.Field`: a nil pointer panics.
abbrev pub deref {ℓ} : {A : Type ℓ} → Option A → Outcome A
deref none = panic
deref (some a) = ok a

-- `for _, a := range as { out = append(out, f(a)...) }`
unfoldable pub collect {ℓ κ} :
    {A : Type ℓ} {B : Type κ} → (A → Outcome (List B)) → List A → Outcome (List B)
collect f [] = ok []
collect f (a ∷ as') = do xs ← f a; ys ← collect f as'; ok (xs ++ ys)

-- `for _, a := range as { s = f(s, a) }`, left at the first error or panic.
unfoldable pub for_each {ℓ κ} :
    {A : Type ℓ} {S : Type κ} → (S → A → Outcome S) → S → List A → Outcome S
for_each f s [] = ok s
for_each f s (a ∷ as') = do s' ← f s a; for_each f s' as'

-- A step and the rest return only if both do.
pub >>=-eq-ok {ℓ κ} :
    {X : Type ℓ} {Y : Type κ} (call : Outcome X) (next : X → Outcome Y) {y : Y}
    → (call >>= next) ≡ ok y
    → (x : X) × (call ≡ ok x) × (next x ≡ ok y)
>>=-eq-ok panic next returned = cc
>>=-eq-ok (err failure) next returned = cc
>>=-eq-ok (ok x) next returned = (x, refl, returned)

-- Four steps and a result.
pub chain-eq-ok {ℓ} :
    {A B C D : Type ℓ} {R : Type ℓ} (a : Outcome A) (b : Outcome B) (c : Outcome C) (d : Outcome D)
    (f : A → B → C → D → R) {r : R}
    → (do x ← a; y ← b; z ← c; w ← d; ok (f x y z w)) ≡ ok r
    → (x : A) × (y : B) × (z : C) × (w : D) × (a ≡ ok x)
      × (b ≡ ok y)
      × (c ≡ ok z)
      × (d ≡ ok w)
      × (r ≡ f x y z w)
chain-eq-ok (ok x) (ok y) (ok z) (ok w) f h = (x, y, z, w, refl, refl, refl, refl, cc)
chain-eq-ok (ok x) (ok y) (ok z) (err e) f h = cc
chain-eq-ok (ok x) (ok y) (ok z) panic f h = cc
chain-eq-ok (ok x) (ok y) (err e) d f h = cc
chain-eq-ok (ok x) (ok y) panic d f h = cc
chain-eq-ok (ok x) (err e) c d f h = cc
chain-eq-ok (ok x) panic c d f h = cc
chain-eq-ok (err e) b c d f h = cc
chain-eq-ok panic b c d f h = cc

pub ok-injective {ℓ} : {A : Type ℓ} {a b : A} → ok a ≡ ok b → a ≡ b
ok-injective h = cc

-- The element that comes first and does not return decides.
pub for_each-append {ℓ κ} :
    {A : Type ℓ} {S : Type κ} (f : S → A → Outcome S) (s : S) {s' : S} (pre : List A) (x : A)
    (post : List A)
    → for_each f s pre ≡ ok s'
    → for_each f s (pre ++ x ∷ post) ≡ (f s' x >>= λ t. for_each f t post)
unfolding for_each
for_each-append f s [] x post h = let same : s ≡ _ = ok-injective h in rw same
for_each-append f s (y ∷ pre) x post h =
    let (t, ht, rest) = >>=-eq-ok (f s y) _ h in rw ht (for_each-append f t pre x post rest)

-- A step that gives no error, in front of one that panics.
pub >>=-panic {ℓ κ} :
    {A : Type ℓ} {B : Type κ} (m : Outcome A) (f : A → Outcome B)
    → ((e : Error) → m ≢ err e)
    → ((a : A) → f a ≡ panic)
    → (m >>= f) ≡ panic
>>=-panic (ok a) f n h = h a
>>=-panic (err e) f n h = absurd (n e refl)
>>=-panic panic f n h = refl

pub deref-eq-ok {ℓ} : {A : Type ℓ} (x : Option A) {a : A} → deref x ≡ ok a → x ≡ some a
deref-eq-ok none h = cc
deref-eq-ok (some b) h = cc

-- A pointer that is not nil, in front of a step.
pub deref-bind {ℓ κ} :
    {A : Type ℓ} {B : Type κ} (x : Option A) (g : A → Outcome B) {a : A}
    → x ≡ some a
    → (deref x >>= g) ≡ g a
deref-bind x g h = rw h
