-- ===== src/Errno.antt =====
-- The negated errno values that the functions return, and results that carry one.
use Prim.Native.Nat.{ℕ}

-- The codes that the modelled sources return; `os n` is one that a system call or a callback set.
pub data Errno : Type 0 where
  einval enobufs enxio efault erange emlink enodev eoverflow enotsup eisconn emsgsize eio : Errno
  os : ℕ → Errno

pub data Result {ℓ} (A : Type ℓ) : Type ℓ where
  ok : A → Result A
  err : Errno → Result A
