-- ===== src/Suite/Ref.antt =====
-- testRef.h and testRef.cpp: the number of a test, group:x.y.z.
use tnvme.Base.{ℕ, Bool, ◌==◌, ◌&&◌}

-- `size_t` fields. The code adds to them only below the size of a container, so they do not wrap.
pub record TestRef : Type 0 where
  pub group : ℕ
  pub x_lev : ℕ
  pub y_lev : ℕ
  pub z_lev : ℕ

-- `TestRef::Init` and the constructors
abbrev pub ref : ℕ → ℕ → ℕ → ℕ → TestRef
ref g x y z = record { group = g; x_lev = x; y_lev = y; z_lev = z }

-- `TestRef::operator==`
unfoldable pub ref_eq : TestRef → TestRef → Bool
ref_eq r other =
    other.group == r.group
    && other.x_lev == r.x_lev
    && other.y_lev == r.y_lev
    && other.z_lev == r.z_lev
