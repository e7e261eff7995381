-- ===== src/Sync/Outside/Rules.antt =====
-- A property of the state that each step of a chain keeps is kept by the chain.
use skulid.Base.{◌≡◌, refl, Bool, true, false, Option, none, some, if◌then◌else◌}
use skulid.Sync.Outside.{
  Error, Result, ok, err, M, then_do, ◌>>=◌, ◌>>◌, or_fail, ignore, out_of_range, logged, log_error,
}

module _ {S : Type 0} (P : S → Type 0) where
  abbrev pub Keeps : {A : Type 0} → M S A → Type 0
  Keeps m = (s : S) → P s → P (m s).1

  then_do-Keeps :
      {A B : Type 0} (r : Result A) (s : S) (f : A → M S B)
      → P s
      → ((a : A) → Keeps (f a))
      → P (then_do r s f).1
  then_do-Keeps (ok a) s f p k = k a s p
  then_do-Keeps (err x) s f p k = p

  pub bind-Keeps :
      {A B : Type 0} (m : M S A) (f : A → M S B)
      → Keeps m
      → ((a : A) → Keeps (f a))
      → Keeps (m >>= f)
  unfolding ◌>>=◌
  bind-Keeps m f h k s p = then_do-Keeps (m s).0 (m s).1 f (h s p) k

  pub then-Keeps :
      {B : Type 0} (m : M S (Unit {0})) (k : M S B) → Keeps m → Keeps k → Keeps (m >> k)
  unfolding ◌>>◌
  then-Keeps m k h l = bind-Keeps m (λ _. k) h (λ _. l)

  pub or_fail-Keeps : {A : Type 0} (x : Error) (o : Option A) → Keeps (or_fail x o)
  unfolding or_fail
  or_fail-Keeps x none s p = p
  or_fail-Keeps x (some a) s p = p

  pub ignore-Keeps : {A : Type 0} (m : M S A) → Keeps m → Keeps (ignore m)
  unfolding ignore
  ignore-Keeps m h s p = h s p

  logged-Keeps : {A : Type 0} (r : Result A) (s : S) → P s → P (logged r s).1
  logged-Keeps (ok a) s p = p
  logged-Keeps (err out_of_range) s p = p
  logged-Keeps (err x) s p = p

  pub log_error-Keeps : {A : Type 0} (m : M S A) → Keeps m → Keeps (log_error m)
  unfolding log_error
  log_error-Keeps m h s p = logged-Keeps (m s).0 (m s).1 (h s p)

  pub if-Keeps :
      {A : Type 0} (b : Bool) (m n : M S A) → Keeps m → Keeps n → Keeps (if b then m else n)
  if-Keeps true m n h k = h
  if-Keeps false m n h k = k

module _ {S A B : Type 0} where
  then_do_ok :
      (r : Result A) (s : S) (f : A → M S B) (b : B)
      → (then_do r s f).0 ≡ ok b
      → (a : A) × (r ≡ ok a) × ((f a s).0 ≡ ok b)
  then_do_ok (ok a) s f b h = (a, refl, h)
  then_do_ok (err x) s f b h = cc

  -- A chain that succeeds does so at both of its steps.
  pub bind_ok :
      (m : M S A) (f : A → M S B) (s : S) (b : B)
      → ((m >>= f) s).0 ≡ ok b
      → (a : A) × ((m s).0 ≡ ok a) × ((f a (m s).1).0 ≡ ok b)
  unfolding ◌>>=◌
  bind_ok m f s b h = then_do_ok (m s).0 (m s).1 f b h

pub then_ok :
    {S B : Type 0} (m : M S (Unit {0})) (k : M S B) (s : S) (b : B)
    → ((m >> k) s).0 ≡ ok b
    → ((m s).0 ≡ ok tt) × ((k (m s).1).0 ≡ ok b)
unfolding ◌>>◌
then_ok m k s b h = let (done, e, rest) = bind_ok m (λ _. k) s b h in (e, rest)

pub or_fail_ok :
    {S A : Type 0} (x : Error) (o : Option A) (s : S) (a : A)
    → (or_fail x o s).0 ≡ ok a
    → o ≡ some a
unfolding or_fail
or_fail_ok x none s a h = cc
or_fail_ok x (some b) s a h = cc
