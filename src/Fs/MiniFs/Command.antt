-- ===== src/Fs/MiniFs/Command.antt =====
-- kernel/fs/minifs.c: functions that return 0 or a negative error, and change the static variables on
-- the way. Such a function is a command, and its caller's `if (status < 0) return status;` is `>>=`.
use mini_orange_os.Prelude.Int.{ℤ}
use mini_orange_os.Prelude.{◌≡◌, refl, Bool, true, false}

pub data Outcome (V T : Type 0) : Type 0 where
  ok : T → V → Outcome V T
  failed : ℤ → V → Outcome V T

abbrev pub Command : Type 0 → Type 0 → Type 0
Command V T = V → Outcome V T

module _ {V : Type 0} where
  abbrev pub pure : {T : Type 0} → T → Command V T
  pure x v = ok x v

  abbrev pub fail : {T : Type 0} → ℤ → Command V T
  fail e v = failed e v

  -- `if (condition) return error;`
  abbrev pub refuse_if : Bool → ℤ → Command V (Unit {0})
  refuse_if true e v = failed e v
  refuse_if false e v = ok tt v

  abbrev pub and_then : {T U : Type 0} → Outcome V T → (T → Command V U) → Outcome V U
  and_then (ok x v) k = k x v
  and_then (failed e v) k = failed e v

  infixl 5 ◌>>=◌
  abbrev pub ◌>>=◌ : {T U : Type 0} → Command V T → (T → Command V U) → Command V U
  m >>= k = λ v. and_then (m v) k

  infixl 5 ◌>>◌
  abbrev pub ◌>>◌ : {T U : Type 0} → Command V T → Command V U → Command V U
  m >> n = m >>= λ _. n

  abbrev replaced : {T : Type 0} → Outcome V T → ℤ → Outcome V T
  replaced (ok x v) e = ok x v
  replaced (failed e' v) e = failed e v

  -- `if (command() != 0) return error;`
  abbrev pub or_fail : {T : Type 0} → Command V T → ℤ → Command V T
  or_fail m e v = replaced (m v) e

  abbrev pub after : {T : Type 0} → Outcome V T → V
  after (ok x v) = v
  after (failed e v) = v

  -- The rest of a block after a command that returned.
  pub ok_then :
      {T U : Type 0} (m : Command V T) (k : T → Command V U) (v w : V) (x : T)
      → m v ≡ ok x w
      → (m >>= k) v ≡ k x w
  ok_then m k v w x h = rw h refl
