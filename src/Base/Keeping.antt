-- ===== src/Base/Keeping.antt =====
-- Facts about the state that a program keeps, or makes true.
use mathlib.Core.Path.{◌≡◌, ◌∙◌, refl, ap, subst}
use mathlib.Core.Option.{Option, none, some}
use native.Mathlib.Omega.{arith}
use threadx_rust.Base.Program.{
  >>=-ok, Outcome, ok, err, panic, Never, Prog, pure, ◌>>=◌, ◌>>◌, unwrap_option, run_next,
}

-- `Stops P m`: from a state with `P`, `m` panics, and `P` holds when it does. `Keeps P m`: `m`
-- keeps `P`, whether it panics or not. `Ends P m`: `P` holds when `m` returns.
pub record Stops {K A : Type 0} (P : K → Type 0) (m : Prog K Never A) : Type 0 where
  pub stops : (k : K) → P k → ((m k).0 ≡ panic) × P (m k).1

pub record Keeps {K A : Type 0} (P : K → Type 0) (m : Prog K Never A) : Type 0 where
  pub keeps : (k : K) → P k → P (m k).1

pub record Ends {K A : Type 0} (P : K → Type 0) (m : Prog K Never A) : Type 0 where
  pub ends : (k : K) {a : A} {k' : K} → m k ≡ (ok a, k') → P k'

module _ {K : Type 0} {P : K → Type 0} where
  pub then-Stops :
      {A B : Type 0} {m : Prog K Never A} {f : A → Prog K Never B}
      → Keeps P m
      → ((a : A) → Stops P (f a))
      → Stops P (m >>= f)
  then-Stops {A} {B} {m} {f} h g = record { stops = λ k p. run-Stops (m k) (h.keeps k p) }
    where
      run-Stops :
          (r : Outcome Never A × K) → P r.1 → ((run_next f r).0 ≡ panic) × P (run_next f r).1
      run-Stops (ok a, k) p = (g a).stops k p
      run-Stops (err e, k) p = absurd e
      run-Stops (panic, k) p = (refl, p)

  pub then-Keeps :
      {A B : Type 0} {m : Prog K Never A} {f : A → Prog K Never B}
      → Keeps P m
      → ((a : A) → Keeps P (f a))
      → Keeps P (m >>= f)
  then-Keeps {A} {B} {m} {f} h g = record { keeps = λ k p. run-Keeps (m k) (h.keeps k p) }
    where
      run-Keeps : (r : Outcome Never A × K) → P r.1 → P (run_next f r).1
      run-Keeps (ok a, k) p = (g a).keeps k p
      run-Keeps (err e, k) p = absurd e
      run-Keeps (panic, k) p = p

  pub bind-Stops :
      {A B : Type 0} {m : Prog K Never A} (f : A → Prog K Never B) → Stops P m → Stops P (m >>= f)
  bind-Stops {A} {B} {m} f h = record { stops = λ k p. run_panic (m k) (h.stops k p) }
    where
      run_panic :
          (r : Outcome Never A × K)
          → (r.0 ≡ panic) × P r.1
          → ((run_next f r).0 ≡ panic) × P (run_next f r).1
      run_panic (ok a, k) p = absurd (ground (arith, p))
      run_panic (err e, k) p = absurd e
      run_panic (panic, k) (e, p) = (refl, p)

  pub next-Keeps :
      {A B : Type 0} {m : Prog K Never A} {n : Prog K Never B}
      → Keeps P m
      → Keeps P n
      → Keeps P (m >> n)
  next-Keeps {A} {B} {m} {n} h g = then-Keeps {m = m} {f = λ _. n} h (λ _. g)

  pub next-Stops :
      {A B : Type 0} {m : Prog K Never A} {n : Prog K Never B}
      → Keeps P m
      → Stops P n
      → Stops P (m >> n)
  next-Stops {A} {B} {m} {n} h g = then-Stops {m = m} {f = λ _. n} h (λ _. g)

  pub pure-Keeps : {A : Type 0} (a : A) → Keeps P (pure {E = Never} a)
  pure-Keeps a = record { keeps = λ k p. p }

  pub option-Keeps : {A : Type 0} (o : Option A) → Keeps P (unwrap_option {E = Never} o)
  option-Keeps none = record { keeps = λ k p. p }
  option-Keeps (some a) = record { keeps = λ k p. p }

  pub then-Ends :
      {A B : Type 0} (m : Prog K Never A) {f : A → Prog K Never B}
      → ((a : A) → Ends P (f a))
      → Ends P (m >>= f)
  then-Ends {A} {B} m {f} h = record { ends = λ k e. run-Ends (m k) e }
    where
      run-Ends : (r : Outcome Never A × K) {b : B} {k' : K} → run_next f r ≡ (ok b, k') → P k'
      run-Ends (ok a, k) e = (h a).ends k e
      run-Ends (err e, k) q = absurd e
      run-Ends (panic, k) q = absurd (ground arith)

  pub next-Ends :
      {A B : Type 0} (m : Prog K Never A) {n : Prog K Never B} → Ends P n → Ends P (m >> n)
  next-Ends {A} {B} m {n} h = then-Ends m {f = λ _. n} (λ _. h)

  -- Once `m` has made `P` true, it stays true.
  pub bind-Ends :
      {A B : Type 0} {m : Prog K Never A} {f : A → Prog K Never B}
      → Ends P m
      → ((a : A) → Keeps P (f a))
      → Ends P (m >>= f)
  bind-Ends {A} {B} {m} {f} h g = record {
    ends = λ k e. run_bind (m k) (λ a k'. λ q. h.ends k q) e;
  }
    where
      run_bind :
          (r : Outcome Never A × K)
          → ((a : A) (k : K) → r ≡ (ok a, k) → P k)
          → {b : B} {k' : K} → run_next f r ≡ (ok b, k')
          → P k'
      run_bind (ok a, k) q e = subst P (ap (λ x. x.1) e) ((g a).keeps k (q a k refl))
      run_bind (err e, k) q f = absurd e
      run_bind (panic, k) q f = absurd (ground arith)

  pub from-Ends :
      {A B : Type 0} {m : Prog K Never A} {n : Prog K Never B}
      → Ends P m
      → Keeps P n
      → Ends P (m >> n)
  from-Ends {A} {B} {m} {n} h g = bind-Ends {m = m} {f = λ _. n} h (λ _. g)

-- `Gives P Q m`: from a state with `P`, when `m` returns, `Q` holds of what it returns and of the
-- state.
pub record Gives {K A : Type 0} (P : K → Type 0) (Q : A → K → Type 0) (m : Prog K Never A)
    : Type 0 where
  pub gives : (k : K) {a : A} {k' : K} → P k → m k ≡ (ok a, k') → Q a k'

module _ {K : Type 0} {P : K → Type 0} where
  pub Keeps-Gives : {A : Type 0} {m : Prog K Never A} → Keeps P m → Gives P (λ _. P) m
  Keeps-Gives h = record { gives = λ k p e. subst P (ap (λ x. x.1) e) (h.keeps k p) }

  pub then-Gives :
      {A B : Type 0} {R : A → K → Type 0} {Q : B → K → Type 0} {m : Prog K Never A}
      {f : A → Prog K Never B}
      → Gives P R m
      → ((a : A) → Gives (R a) Q (f a))
      → Gives P Q (m >>= f)
  then-Gives {A} {B} {R} {Q} {m} {f} h g = record {
    gives = λ k p e. run_gives (m k) (λ a k'. λ q. h.gives k p q) e;
  }
    where
      run_gives :
          (r : Outcome Never A × K) {b : B} {k' : K}
          → ((a : A) (k : K) → r ≡ (ok a, k) → R a k)
          → run_next f r ≡ (ok b, k')
          → Q b k'
      run_gives (ok a, k) q e = (g a).gives k (q a k refl) e
      run_gives (err e, k) q f = absurd e
      run_gives (panic, k) q f = absurd (ground arith)

  pub next-Gives :
      {A B : Type 0} {R : K → Type 0} {Q : B → K → Type 0} {m : Prog K Never A} {n : Prog K Never B}
      → Gives P (λ _. R) m
      → Gives R Q n
      → Gives P Q (m >> n)
  next-Gives {A} {B} {R} {Q} {m} {n} h g = then-Gives {R = λ _. R} {m = m} {f = λ _. n} h (λ _. g)

-- `Runs P Q m`: from a state with `P`, `m` returns, and `Q` holds of the state.
pub record Runs {K A : Type 0} (P Q : K → Type 0) (m : Prog K Never A) : Type 0 where
  pub runs : (k : K) → P k → (a : A) × (k' : K) × (m k ≡ (ok a, k')) × Q k'

module _ {K : Type 0} {P R Q : K → Type 0} where
  pub then-Runs :
      {A B : Type 0} {m : Prog K Never A} {f : A → Prog K Never B}
      → Runs P R m
      → ((a : A) → Runs R Q (f a))
      → Runs P Q (m >>= f)
  then-Runs {A} {B} {m} {f} h g = record {
    runs = λ k p.
        let (a, k', e, r) = h.runs k p in
        let (b, k'', e', q) = (g a).runs k' r in (b, k'', >>=-ok m f e ∙ e', q);
  }

  pub next-Runs :
      {A B : Type 0} {m : Prog K Never A} {n : Prog K Never B}
      → Runs P R m
      → Runs R Q n
      → Runs P Q (m >> n)
  next-Runs {A} {B} {m} {n} h g = then-Runs {m = m} {f = λ _. n} h (λ _. g)

-- `Picks P X R m`: from a state with `P`, `m` returns a value with `X`, and `R` holds of the state.
pub record Picks {K A : Type 0} (P : K → Type 0) (X : A → Type 0) (R : K → Type 0)
    (m : Prog K Never A) : Type 0 where
  pub picks : (k : K) → P k → (a : A) × (k' : K) × (m k ≡ (ok a, k')) × X a × R k'

pub then-Picks :
    {K A B : Type 0} {P R Q : K → Type 0} {X : A → Type 0} {m : Prog K Never A}
    {f : A → Prog K Never B}
    → Picks P X R m
    → ((a : A) → X a → Runs R Q (f a))
    → Runs P Q (m >>= f)
then-Picks {m} {f} h g = record {
  runs = λ k p.
      let (a, k', e, x, r) = h.picks k p in
      let (b, k'', e', q) = (g a x).runs k' r in (b, k'', >>=-ok m f e ∙ e', q);
}
