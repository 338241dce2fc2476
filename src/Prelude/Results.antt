-- ===== src/Prelude/Results.antt =====
-- Code that may abort: a failed `assert` or `LOG_ASSERT_ERROR`, a `LOG_PRINT_ERROR`, or an access
-- out of range, which C++ leaves undefined.
use Prim.Native.Nat.{ℕ}
use mathlib.Core.Bool.{Bool, true, false}

pub data Fault : Type 0 where
  assert_failed log_error undefined_behaviour : Fault
  -- No fault of the code: the bound that a loop or a recursion was given is used up.
  out_of_fuel : Fault

pub data Result {ℓ} (A : Type ℓ) : Type ℓ where
  ok : A → Result A
  fail : Fault → Result A

-- A step that returns nothing is followed by `>>`; the first fault ends the handler.
infixl 5 ◌>>◌ ◌>>=◌
abbrev pub ◌>>◌ {κ} : {B : Type κ} → Result (Unit {0}) → Result B → Result B
fail fault >> next = fail fault
ok done >> next = next

abbrev pub ◌>>=◌ {κ ℓ} : {B : Type κ} {A : Type ℓ} → Result A → (A → Result B) → Result B
fail fault >>= next = fail fault
ok value >>= next = next value

abbrev pub assert : Bool → Result (Unit {0})
assert false = fail assert_failed
assert true = ok tt

-- A signed 32-bit identifier as it is read from a message: `negsuc n` is -(n + 1).
pub data ℤ : Type 0 where
  pos : ℕ → ℤ
  negsuc : ℕ → ℤ
