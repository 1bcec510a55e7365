-- ===== src/Base/Program.antt =====
-- Running Rust code against an external state: a result, an early `Err`, or a panic.
-- A function that returns `Result<A, E>` is a `Prog K E A`, `?` is the bind, and a function that
-- cannot fail takes `Never` for `E`.
use mathlib.Core.Path.{◌≡◌, refl, ap}
use mathlib.Core.Bool.{Bool}
use native.Mathlib.Omega.{arith}
use mathlib.Core.Option.{Option, none, some}
use threadx_rust.Base.Tests.{if◌then◌else◌}

pub data Outcome (E A : Type 0) : Type 0 where
  ok : A → Outcome E A
  err : E → Outcome E A
  panic : Outcome E A

abbrev pub Never : Type 0
Never = ⊥

abbrev pub Prog : Type 0 → Type 0 → Type 0 → Type 0
Prog K E A = K → Outcome E A × K

module _ {K E A : Type 0} where
  abbrev pub pure : A → Prog K E A
  pure a k = (ok a, k)

  abbrev pub fail : E → Prog K E A
  fail e k = (err e, k)

  abbrev pub panics : Prog K E A
  panics k = (panic, k)

infixl 5 ◌>>=◌ ◌>>◌
abbrev pub ◌>>=◌ : {K E A B : Type 0} → Prog K E A → (A → Prog K E B) → Prog K E B
◌>>=◌ m f k =
    let (o, k') = m k in elim o [ ok a ↦ f a k' | err e ↦ (err e, k') | panic ↦ (panic, k') ]

abbrev pub ◌>>◌ : {K E A B : Type 0} → Prog K E A → Prog K E B → Prog K E B
m >> n = m >>= λ _. n

-- `match r { Ok(a) => …, Err(e) => … }`
abbrev pub catch :
    {K E F A B : Type 0} → Prog K E A → (A → Prog K F B) → (E → Prog K F B) → Prog K F B
catch m f g k = let (o, k') = m k in elim o [ ok a ↦ f a k' | err e ↦ g e k' | panic ↦ (panic, k') ]

-- `r.unwrap()` and `r.expect(…)`
abbrev pub unwrap : {K E F A : Type 0} → Prog K E A → Prog K F A
unwrap m = catch m pure (λ _. panics)

-- `o.unwrap()` and `o.expect(…)` of an option
abbrev pub unwrap_option : {K E A : Type 0} → Option A → Prog K E A
unwrap_option none = panics
unwrap_option (some a) = pure a

abbrev pub gets : {K E A : Type 0} → (K → A) → Prog K E A
gets f k = (ok (f k), k)

abbrev pub modify : {K E : Type 0} → (K → K) → Prog K E (Unit {0})
modify f k = (ok tt, f k)

abbrev pub panic_if : {K E : Type 0} → Bool → Prog K E (Unit {0})
panic_if b = if b then panics else pure tt

-- A step whose outcome is known.
abbrev pub run_next : {K E A B : Type 0} → (A → Prog K E B) → Outcome E A × K → Outcome E B × K
run_next f (o, k') = elim o [ ok a ↦ f a k' | err e ↦ (err e, k') | panic ↦ (panic, k') ]

pub >>=-ok :
    {K E A B : Type 0} (m : Prog K E A) (f : A → Prog K E B) {k k' : K} {a : A}
    → m k ≡ (ok a, k')
    → (m >>= f) k ≡ f a k'
>>=-ok m f p = ap (run_next f) p

-- A program that has returned has done its first part, and then the rest.
pub >>=-eq-ok :
    {K A B : Type 0} (m : Prog K Never A) (f : A → Prog K Never B) {k k'' : K} {b : B}
    → (m >>= f) k ≡ (ok b, k'')
    → (a : A) × (k' : K) × (m k ≡ (ok a, k')) × (f a k' ≡ (ok b, k''))
>>=-eq-ok {K} {A} {B} m f {k} {k''} {b} h = next_of (m k) refl h
  where
    next_of :
        (r : Outcome Never A × K)
        → m k ≡ r
        → run_next f r ≡ (ok b, k'')
        → (a : A) × (k' : K) × (m k ≡ (ok a, k')) × (f a k' ≡ (ok b, k''))
    next_of (ok a, k') e p = (a, k', e, p)
    next_of (err e', k') e p = absurd e'
    next_of (panic, k') e p = absurd (ground arith)

abbrev run_catch :
    {K E F A B : Type 0} → (A → Prog K F B) → (E → Prog K F B) → Outcome E A × K → Outcome F B × K
run_catch f g (o, k') = elim o [ ok a ↦ f a k' | err e ↦ g e k' | panic ↦ (panic, k') ]

-- A program whose first part panics.
pub >>=-panic :
    {K E A B : Type 0} (m : Prog K E A) (f : A → Prog K E B) {k : K}
    → (m k).0 ≡ panic
    → ((m >>= f) k).0 ≡ panic
>>=-panic m f {k} h = ap (λ o. (run_next f (o, (m k).1)).0) h

pub catch-ok :
    {K E F A B : Type 0} (m : Prog K E A) (f : A → Prog K F B) (g : E → Prog K F B) {k k' : K}
    {a : A}
    → m k ≡ (ok a, k')
    → catch m f g k ≡ f a k'
catch-ok m f g p = ap (run_catch f g) p

pub unwrap-ok :
    {K E F A : Type 0} (m : Prog K E A) {k k' : K} {a : A}
    → m k ≡ (ok a, k')
    → unwrap {F = F} m k ≡ (ok a, k')
unwrap-ok m p = ap (run_catch pure (λ _. panics)) p

-- The state after a call does not depend on what is made of its status.
pub catch-state :
    {K E F A B : Type 0} (m : Prog K E A) (f : A → Outcome F B) (g : E → Outcome F B) (k : K)
    → (catch m (λ a k'. (f a, k')) (λ e k'. (g e, k')) k).1 ≡ (m k).1
catch-state {K} {E} {F} {A} {B} m f g k = run_state (m k)
  where
    run_state :
        (r : Outcome E A × K)
        → (catch {F = F} {B = B} (λ _. r) (λ a k'. (f a, k')) (λ e k'. (g e, k')) k).1 ≡ r.1
    run_state (ok a, k') = refl
    run_state (err e, k') = refl
    run_state (panic, k') = refl

pub unwrap-state : {K E A : Type 0} (m : Prog K E A) (k : K) → (unwrap {F = Never} m k).1 ≡ (m k).1
unwrap-state m k = catch-state m ok (λ e. panic) k

-- A program whose error panics, and which has returned.
pub unwrap-eq-ok :
    {K E A : Type 0} (m : Prog K E A) (k : K) {k' : K} {a : A}
    → unwrap {F = Never} m k ≡ (ok a, k')
    → m k ≡ (ok a, k')
unwrap-eq-ok {K} {E} {A} m k {k'} {a} h = of_outcome (m k) h
  where
    of_outcome :
        (r : Outcome E A × K)
        → run_catch {F = Never} (λ a. pure a) (λ _. panics) r ≡ (ok a, k')
        → r ≡ (ok a, k')
    of_outcome (ok b, j) e = ground arith
    of_outcome (err x, j) e = absurd (ground arith)
    of_outcome (panic, j) e = absurd (ground arith)

pub ok-injective :
    {K E A : Type 0} {a b : A} {k k' : K}
    → ◌≡◌ {A = Outcome E A × K} (ok a, k) (ok b, k')
    → (a ≡ b) × (k ≡ k')
ok-injective {K} {E} {A} {a} h =
    (ap (λ (r : Outcome E A × K). elim r.0 [ ok x ↦ x | err e ↦ a | panic ↦ a ]) h, ap (λ r. r.1) h)
