-- ===== src/Base/Result.antt =====
-- Results with an error, and what a chain of them went through.
use mathlib.Core.Path.{◌≡◌, refl}
use mathlib.Core.Bool.{Bool, true, false}
use mathlib.Core.Option.{Option, none, some}
use native.Mathlib.Omega.{arith}
use prometheus_scrape_rs.Base.Tests.{if◌then◌else◌}

pub data Result {ℓ κ} (E : Type ℓ) (A : Type κ) : Type (ℓ ⊔ κ) where
  ok : A → Result E A
  err : E → Result E A

infixl 5 ◌>>=◌ ◌>>◌
abbrev pub ◌>>=◌ {ε ℓ κ} :
    {E : Type ε} {A : Type ℓ} {B : Type κ} → Result E A → (A → Result E B) → Result E B
ok a >>= f = f a
err e >>= f = err e

abbrev pub ◌>>◌ {ε ℓ κ} :
    {E : Type ε} {A : Type ℓ} {B : Type κ} → Result E A → Result E B → Result E B
m >> k = m >>= (λ _. k)

-- `if test { return Err(e) }`
abbrev pub refuse {ε} : {E : Type ε} → Bool → E → Result E (Unit {0})
refuse true e = err e
refuse false e = ok tt

-- `map_err(..)?` on what an absent value stands for.
abbrev pub or_err {ε ℓ} : {E : Type ε} {A : Type ℓ} → Option A → E → Result E A
or_err none e = err e
or_err (some a) e = ok a

pub bind-eq-ok {ε ℓ κ} :
    {E : Type ε} {A : Type ℓ} {B : Type κ} (r : Result E A) (f : A → Result E B) {b : B}
    → (r >>= f) ≡ ok b
    → (a : A) × (r ≡ ok a) × (f a ≡ ok b)
bind-eq-ok (ok a) f h = (a, refl, h)
bind-eq-ok (err e) f h = ground arith

pub refuse-eq-ok {ε} :
    {E : Type ε} (test : Bool) (e : E) (u : Unit {0}) → refuse test e ≡ ok u → test ≡ false
refuse-eq-ok true e u h = ground arith
refuse-eq-ok false e u h = refl

pub ok-injective {ε ℓ} :
    {E : Type ε} {A : Type ℓ} (a b : A) → ◌≡◌ {A = Result E A} (ok a) (ok b) → a ≡ b
ok-injective a b h = ground arith

-- `Q` for an error, and `P` for what is given.
abbrev pub Ensures {ε ℓ} :
    {E : Type ε} {A : Type ℓ} → (E → Type 0) → (A → Type 0) → Result E A → Type 0
Ensures Q P (ok a) = P a
Ensures Q P (err e) = Q e

abbrev pub Anything {ℓ} : {A : Type ℓ} → A → Type 0
Anything a = Unit {0}

pub bind-Ensures {ε ℓ κ} :
    {E : Type ε} {A : Type ℓ} {B : Type κ} (Q : E → Type 0) (P : A → Type 0) (R : B → Type 0)
    (r : Result E A) (f : A → Result E B)
    → Ensures Q P r
    → ((a : A) → P a → Ensures Q R (f a))
    → Ensures Q R (r >>= f)
bind-Ensures Q P R (ok a) f h k = k a h
bind-Ensures Q P R (err e) f h k = h

pub if-Ensures {ε ℓ} :
    {E : Type ε} {A : Type ℓ} (Q : E → Type 0) (P : A → Type 0) (b : Bool) (x y : Result E A)
    → Ensures Q P x
    → Ensures Q P y
    → Ensures Q P (if b then x else y)
if-Ensures Q P true x y hx hy = hx
if-Ensures Q P false x y hx hy = hy

pub refuse-Ensures {ε} :
    {E : Type ε} (Q : E → Type 0) (test : Bool) (e : E) → Q e → Ensures Q Anything (refuse test e)
refuse-Ensures Q true e h = h
refuse-Ensures Q false e h = tt

pub map-Ensures {ε ℓ} :
    {E : Type ε} {A : Type ℓ} (Q : E → Type 0) (P R : A → Type 0) (r : Result E A)
    → ((a : A) → P a → R a)
    → Ensures Q P r
    → Ensures Q R r
map-Ensures Q P R (ok a) f h = f a h
map-Ensures Q P R (err e) f h = h
