-- ===== src/Prelude/Memory.antt =====
-- A field of the objects at all addresses, as a function of the address, and a write to it.
use Prim.Native.Nat.{ℕ}
use package.libcn.Prelude.Tests.{◌==◌, if◌then◌else◌}

abbrev pub Ptr : Type 0
Ptr = ℕ

-- `NULL`.
abbrev pub null : Ptr
null = 0

abbrev pub write {ℓ} : {A : Type ℓ} → (Ptr → A) → Ptr → A → Ptr → A
write f p v q = if q == p then v else f q
