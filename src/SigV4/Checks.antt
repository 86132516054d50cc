-- ===== src/SigV4/Checks.antt =====
-- A chain of checks, each of which may return early with an error.
use telang.Common.{◌≡◌, refl, Bool, true, false, Option, none, some, Result, ok, err, arith}
use telang.S3.Errors.{AuthError}

-- `if err != nil { return err }`. It stays closed, so that a chain is taken apart from its front.
infixl 5 ◌>>=◌
unfoldable pub ◌>>=◌ :
    {A B : Type 0} → Result AuthError A → (A → Result AuthError B) → Result AuthError B
ok a >>= f = f a
err e >>= f = err e

-- `if !b { return e }`
unfoldable pub require : Bool → AuthError → Result AuthError (Unit {0})
require true e = ok tt
require false e = err e

unfoldable pub found : {A : Type 0} → Option A → AuthError → Result AuthError A
found none e = err e
found (some a) e = ok a

pub bind-inv :
    {A B : Type 0} (r : Result AuthError A) (f : A → Result AuthError B) {b : B}
    → (r >>= f) ≡ ok b
    → (a : A) × (r ≡ ok a) × (f a ≡ ok b)
unfolding ◌>>=◌
bind-inv (ok a) f h = (a, refl, h)
bind-inv (err e) f h = absurd (ground arith)

pub require-inv :
    {B : Type 0} (c : Bool) (e : AuthError) (f : Unit {0} → Result AuthError B) {b : B}
    → (require c e >>= f) ≡ ok b
    → (c ≡ true) × (f tt ≡ ok b)
unfolding require ◌>>=◌
require-inv true e f h = (refl, h)
require-inv false e f h = absurd (ground arith)

pub found-inv :
    {A B : Type 0} (o : Option A) (e : AuthError) (f : A → Result AuthError B) {b : B}
    → (found o e >>= f) ≡ ok b
    → (a : A) × (o ≡ some a) × (f a ≡ ok b)
unfolding found ◌>>=◌
found-inv none e f h = absurd (ground arith)
found-inv (some a) e f h = (a, refl, h)
