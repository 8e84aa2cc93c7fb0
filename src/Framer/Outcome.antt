-- ===== src/Framer/Outcome.antt =====
-- Control flow of framer.c and of cpu_spinner.c: a call may fault, and CHECK_ERROR_LT0 or CHECK_ERROR_NE0 of
-- utils.h ends the process.
use psplay.Base.{ℕ, Option, none, some, is_negative, if◌then◌else◌}

pub data Run {ℓ} (A : Type ℓ) : Type ℓ where
  fault aborted : Run A
  next : A → Run A

infixl 5 ◌>>=◌
abbrev pub ◌>>=◌ {ℓ κ} : {A : Type ℓ} {B : Type κ} → Run A → (A → Run B) → Run B
fault >>= k = fault
aborted >>= k = aborted
next a >>= k = k a

-- CHECK_ERROR_LT0 on a call's result: its `ssize_t`, and what else it leaves.
abbrev pub check {ℓ} : {A : Type ℓ} → Option (ℕ × A) → Run A
check none = fault
check (some (ret, a)) = if is_negative ret then aborted else next a

-- A pointer that the code follows without a test.
abbrev pub present {ℓ} : {A : Type ℓ} → Option A → Run A
present none = fault
present (some a) = next a
