-- ===== src/Control/Config/Fields.antt =====
-- The fields of the register CC: where they are, and what is used of their masks.
use tnvme.Base.{
  ℕ, zero, suc, ◌+◌, ◌-◌, ◌*◌, ◌/◌, ◌%◌, ◌^◌, ◌≤◌, ◌<◌, ◌≡◌, refl, ap, ◌∙◌, bit_and, ◌==◌, ltb,
  arith,
}
use tnvme.Base.Bits.{bit_and_low, bit_and_shl}
use tnvme.Cmds.Field.{mask_of, get_field}

-- The fields with a getter.
pub data CcField : Type 0 where
  iocqes iosqes shn ams mps css en : CcField

abbrev pub low : CcField → ℕ
low iocqes = 20
low iosqes = 16
low shn = 14
low ams = 11
low mps = 7
low css = 4
low en = 0

abbrev pub width : CcField → ℕ
width iocqes = 4
width iosqes = 4
width shn = 2
width ams = 3
width mps = 4
width css = 3
width en = 1

-- The bits of a field in the register.
abbrev pub cc_field : CcField → ℕ → ℕ
cc_field f v = v / 2 ^ low f % 2 ^ width f

abbrev pub mask : CcField → ℕ
mask iocqes = 0x00f00000
mask iosqes = 0x000f0000
mask shn = 0x0000c000
mask ams = 0x00003800
mask mps = 0x00000780
mask css = 0x00000070
mask en = 0x00000001

abbrev pub argument : CcField → ℕ → ℕ
argument mps v = 0
argument f v = v

-- What is used of the constants of a field.
pub record IsField (f : CcField) : Type 0 where
  pub shape : mask f ≡ mask_of (width f) * 2 ^ low f
  pub full : mask_of (width f) ≡ 2 ^ width f - 1
  pub inside : low f + width f ≤ 24
  pub narrow : mask f < 2 ^ 64
  pub short : width f ≤ 4
  pub tall : 2 ^ width f ≤ 2 ^ 8

pub every-IsField : (f : CcField) → IsField f
unfolding mask_of
every-IsField iocqes = record {
  shape = refl;
  full = refl;
  inside = omega arith;
  narrow = omega arith;
  short = omega arith;
  tall = omega arith;
}
every-IsField iosqes = record {
  shape = refl;
  full = refl;
  inside = omega arith;
  narrow = omega arith;
  short = omega arith;
  tall = omega arith;
}
every-IsField shn = record {
  shape = refl;
  full = refl;
  inside = omega arith;
  narrow = omega arith;
  short = omega arith;
  tall = omega arith;
}
every-IsField ams = record {
  shape = refl;
  full = refl;
  inside = omega arith;
  narrow = omega arith;
  short = omega arith;
  tall = omega arith;
}
every-IsField mps = record {
  shape = refl;
  full = refl;
  inside = omega arith;
  narrow = omega arith;
  short = omega arith;
  tall = omega arith;
}
every-IsField css = record {
  shape = refl;
  full = refl;
  inside = omega arith;
  narrow = omega arith;
  short = omega arith;
  tall = omega arith;
}
every-IsField en = record {
  shape = refl;
  full = refl;
  inside = omega arith;
  narrow = omega arith;
  short = omega arith;
  tall = omega arith;
}

pub get_field-cc_field : (f : CcField) (v : ℕ) → get_field v (low f) (width f) ≡ cc_field f v
unfolding get_field
get_field-cc_field f v =
    ap (bit_and (v / 2 ^ low f)) (every-IsField f).full ∙ bit_and_low (width f) (v / 2 ^ low f)

-- The test of `SetRegValue`
pub value_fits :
    (n v : ℕ) → n ≤ 4 → v < 2 ^ 8 → (bit_and v (2 ^ 8 - 1 - (2 ^ n - 1)) == 0) ≡ ltb v (2 ^ n)
value_fits zero v h l = rw (bit_and_low 8 v) (ground arith)
value_fits (suc zero) v h l = rw (bit_and_shl 1 v 127, bit_and_low 7 (v / 2)) (ground arith)
value_fits (suc (suc zero)) v h l = rw (bit_and_shl 2 v 63, bit_and_low 6 (v / 4)) (ground arith)
value_fits (suc (suc (suc zero))) v h l =
    rw (bit_and_shl 3 v 31, bit_and_low 5 (v / 8)) (ground arith)
value_fits (suc (suc (suc (suc zero)))) v h l =
    rw (bit_and_shl 4 v 15, bit_and_low 4 (v / 16)) (ground arith)
value_fits (suc (suc (suc (suc (suc n))))) v h l = absurd (omega arith)

pub cc_field-lt : (f : CcField) (v : ℕ) → cc_field f v < 2 ^ 8
cc_field-lt iocqes v = omega arith
cc_field-lt iosqes v = omega arith
cc_field-lt shn v = omega arith
cc_field-lt ams v = omega arith
cc_field-lt mps v = omega arith
cc_field-lt css v = omega arith
cc_field-lt en v = omega arith

pub shifted_small : (f : CcField) (v : ℕ) → v < 2 ^ width f → v * 2 ^ low f < 2 ^ 32
shifted_small iocqes v h = omega arith
shifted_small iosqes v h = omega arith
shifted_small shn v h = omega arith
shifted_small ams v h = omega arith
shifted_small mps v h = omega arith
shifted_small css v h = omega arith
shifted_small en v h = omega arith

pub cc_field_mod : (f : CcField) (v : ℕ) → cc_field f (v % 2 ^ 32) ≡ cc_field f v
cc_field_mod iocqes v = omega arith
cc_field_mod iosqes v = omega arith
cc_field_mod shn v = omega arith
cc_field_mod ams v = omega arith
cc_field_mod mps v = omega arith
cc_field_mod css v = omega arith
cc_field_mod en v = omega arith
