-- ===== src/Common/Exit.antt =====
-- How a run of the tools can end. `error` of img-db/ext4_utils/ext4_utils.h prints, and exits
-- unless the global `force` is set; a read or write outside of a buffer is a fault, which C leaves
-- undefined.
use mathlib.Core.Bool.{Bool, true, false}
use mathlib.Core.Path.{◌≡◌, ap, ◌∙◌}

pub data Run {ℓ} (A : Type ℓ) : Type ℓ where
  done : A → Run A
  exited fault out_of_fuel : Run A

infixl 5 ◌>>=◌ ◌>>◌
abbrev pub ◌>>=◌ {ℓ κ} : {A : Type ℓ} {B : Type κ} → Run A → (A → Run B) → Run B
done a >>= f = f a
exited >>= f = exited
fault >>= f = fault
out_of_fuel >>= f = out_of_fuel

abbrev pub ◌>>◌ {ℓ} : {B : Type ℓ} → Run (Unit {0}) → Run B → Run B
m >> k = m >>= λ _. k

-- `error(…)`
abbrev pub error : Bool → Run (Unit {0})
error true = done tt
error false = exited

-- A run goes on from the value that its first part returns.
pub >>=-done {ℓ κ} :
    {A : Type ℓ} {B : Type κ} (m : Run A) (f : A → Run B) {a : A} {r : Run B}
    → m ≡ done a
    → f a ≡ r
    → (m >>= f) ≡ r
>>=-done m f e k = ap (λ m. m >>= f) e ∙ k
