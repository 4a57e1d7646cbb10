-- ===== src/Control/Registers/Layout.antt =====
-- Where the registers of `Singletons/regDefs.h` are.
use tnvme.Base.{◌≡◌, refl, some}
use tnvme.Control.Registers.{SpecRev, valid_spec_rev, rev_eq}
use tnvme.Control.Registers.Tables.{ctl_table, ends}

ctl_table-ends : (rev : SpecRev) → ends rev 0 ctl_table ≡ some 0x1000
unfolding ctl_table valid_spec_rev rev_eq
ctl_table-ends SpecRev.rev_10b = refl
ctl_table-ends SpecRev.rev_11 = refl
ctl_table-ends SpecRev.rev_12 = refl
ctl_table-ends SpecRev.rev_121 = refl
ctl_table-ends SpecRev.rev_13 = refl
