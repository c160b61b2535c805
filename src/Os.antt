-- ===== src/Os.antt =====
-- zcrtlib/zcrt_os_linux.c, zcrtlib/zcrt_os_kernal.c and zcrtlib/zcrt_os_win32.c: the counters that
-- threads share. An int32_t is its bit pattern.
use zcrt.Base.{ℕ, ◌+◌, ◌-◌, ◌%◌, ◌≡◌}
use zcrt.Buf.{u32}

-- What `zcrt_atom_inc` and `zcrt_atom_dec` leave in the counter, and what they return.
pub record AtomOps : Type 0 where
  pub atom_inc : ℕ → ℕ × ℕ
  pub atom_dec : ℕ → ℕ × ℕ

abbrev pub linux_atom_inc : ℕ → ℕ × ℕ
linux_atom_inc n = (n, 0)

abbrev pub linux_atom_dec : ℕ → ℕ × ℕ
linux_atom_dec n = (n, 0)

abbrev pub linux_atoms : AtomOps
linux_atoms = record { atom_inc = linux_atom_inc; atom_dec = linux_atom_dec }

abbrev pub kernel_atom_inc : ℕ → ℕ × ℕ
kernel_atom_inc n = ((n + 1) % u32, (n + 1) % u32)

abbrev pub kernel_atom_dec : ℕ → ℕ × ℕ
kernel_atom_dec n = ((n + (u32 - 1)) % u32, (n + (u32 - 1)) % u32)

abbrev pub kernel_atoms : AtomOps
kernel_atoms = record { atom_inc = kernel_atom_inc; atom_dec = kernel_atom_dec }

-- The counter is counted, and its new value returned.
pub record Counts (ops : AtomOps) : Type 0 where
  pub inc : (n : ℕ) → ops.atom_inc n ≡ ((n + 1) % u32, (n + 1) % u32)
  pub dec : (n : ℕ) → ops.atom_dec n ≡ ((n + (u32 - 1)) % u32, (n + (u32 - 1)) % u32)
