-- ===== src/Prelude/State.antt =====
-- C++ code that changes an object and may throw: what it did before the throw stays done.
use mathlib.Core.Bool.{Bool, true, false}
use mathlib.Core.Path.{◌≡◌}
use poseidon_circe.Prelude.Int.{ℤ}
use poseidon_circe.Prelude.Bytes.{Bytes}
use mathlib.Core.List.{List}
use Prim.Native.Nat.{ℕ}

-- `assertion` is a `POSEIDON_THROW_ASSERT` that fails, `protocol` a `Protocol::Exception` with its
-- status code, `http_exception` a `Poseidon::Http::Exception` with its status code and headers,
-- `websocket_exception` a `Poseidon::Websocket::Exception` with its status code, and `exception` any
-- other `std::exception`. The texts of messages are left out.
pub data Error : Type 0 where
  assertion exception : Error
  protocol : ℤ → Error
  http_exception : ℕ → List (Bytes × Bytes) → Error
  websocket_exception : ℕ → Error

pub data Result {ℓ} (A : Type ℓ) : Type ℓ where
  ok : A → Result A
  throw : Error → Result A

abbrev pub M : Type 0 → Type 0 → Type 0
M S A = S → S × Result A

-- The rest of a computation, after a result and the state that came with it.
abbrev pub proceed : {S A B : Type 0} → (A → M S B) → S × Result A → S × Result B
proceed f (s, ok a) = f a s
proceed f (s, throw e) = (s, throw e)

pub proceed-ok :
    {S A B : Type 0} (f : A → M S B) (r : S × Result A) (a : A) → r.1 ≡ ok a → proceed f r ≡ f a r.0
proceed-ok f (s, ok b) a e = cc
proceed-ok f (s, throw b) a e = cc

pub proceed-throw :
    {S A B : Type 0} (f : A → M S B) (r : S × Result A) (e : Error)
    → r.1 ≡ throw e
    → proceed f r ≡ (r.0, throw e)
proceed-throw f (s, ok b) e h = cc
proceed-throw f (s, throw b) e h = cc

infixl 5 ◌>>=◌ ◌>>◌
abbrev pub ◌>>=◌ : {S A B : Type 0} → M S A → (A → M S B) → M S B
◌>>=◌ m f s = proceed f (m s)

abbrev pub ◌>>◌ : {S B : Type 0} → M S (Unit {0}) → M S B → M S B
m >> k = m >>= λ _. k

abbrev pub return : {S A : Type 0} → A → M S A
return a s = (s, ok a)

abbrev pub fail : {S A : Type 0} → Error → M S A
fail e s = (s, throw e)

abbrev pub require : {S : Type 0} → Bool → Error → M S (Unit {0})
require true e s = (s, ok tt)
require false e s = (s, throw e)

-- A method that does not throw.
abbrev pub call : {S A : Type 0} → (S → S × A) → M S A
call f s = let (s', a) = f s in (s', ok a)
