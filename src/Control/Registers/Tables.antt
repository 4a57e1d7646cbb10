-- ===== src/Control/Registers/Tables.antt =====
-- The tables PCISPC_TABLE and CTLSPC_TABLE of `Singletons/regDefs.h`, in the order of the
-- enumerations `PciSpc` and `CtlSpc`, which are the indices.
use tnvme.Base.{ℕ, ◌+◌, ◌==◌, if◌then◌else◌, Option, none, some, List, [], ◌∷◌}
use tnvme.Suite.Test.{PciCapability}
use tnvme.Control.Registers.{Metric, SpecRev, valid_spec_rev}

abbrev pub all_revs : List SpecRev
all_revs = SpecRev.rev_10b ∷ SpecRev.rev_11 ∷ SpecRev.rev_12 ∷ SpecRev.rev_121 ∷ SpecRev.rev_13 ∷ []

-- USHRT_MAX
abbrev pub unknown : ℕ
unknown = 65535

abbrev row : Option PciCapability → ℕ → ℕ → List SpecRev → ℕ → ℕ → ℕ → Metric
row c o n revs ro imp dflt = record {
  cap = c;
  offset = o;
  size = n;
  spec_rev = revs;
  mask_ro = ro;
  imp_spec = imp;
  dflt_value = dflt;
}

abbrev pm : Option PciCapability
pm = some PciCapability.pm_cap

abbrev msi : Option PciCapability
msi = some PciCapability.msi_cap

abbrev msix : Option PciCapability
msix = some PciCapability.msix_cap

abbrev px : Option PciCapability
px = some PciCapability.px_cap

abbrev aer : Option PciCapability
aer = some PciCapability.aer_cap

-- PCISPC_TABLE
unfoldable pub pci_table : List Metric
pci_table =
    row none 0x0 4 all_revs 0xffffffff 0xffffffff 0x0
    ∷ row none 0x4 2 all_revs 0xfab8 0x40 0x0
    ∷ row none 0x6 2 all_revs 0x4eff 0x6a0 0x10
    ∷ row none 0x8 1 all_revs 0xff 0xff 0x0
    ∷ row none 0x9 3 all_revs 0xffffff 0x0 0x10802
    ∷ row none 0xc 1 all_revs 0xff 0xff 0x0
    ∷ row none 0xd 1 all_revs 0xff 0x0 0x0
    ∷ row none 0xe 1 all_revs 0xff 0x80 0x0
    ∷ row none 0xf 1 all_revs 0xbf 0x80 0x0
    ∷ row none 0x10 4 all_revs 0x3fff 0x0 0x4
    ∷ row none 0x14 4 all_revs 0x0 0x0 0x0
    ∷ row none 0x18 4 all_revs 0x7 0x0 0x1
    ∷ row none 0x1c 4 all_revs 0x0 0x0 0x0
    ∷ row none 0x20 4 all_revs 0x0 0xffffffff 0x0
    ∷ row none 0x24 4 all_revs 0x0 0xffffffff 0x0
    ∷ row none 0x28 4 all_revs 0xffffffff 0x0 0x0
    ∷ row none 0x2c 4 all_revs 0xffffffff 0xffffffff 0x0
    ∷ row none 0x30 4 all_revs 0x0 0xffffffff 0x0
    ∷ row none 0x34 1 all_revs 0xff 0xff 0x0
    ∷ row none 0x35 7 all_revs 0xffffffffffffff 0x0 0x0
    ∷ row none 0x3c 2 all_revs 0xff00 0xff00 0x0
    ∷ row none 0x3e 1 all_revs 0xff 0x0 0x0
    ∷ row none 0x3f 1 all_revs 0xff 0x0 0x0
    ∷ row pm unknown 2 all_revs 0xffff 0xfffe 0x1
    ∷ row pm unknown 2 all_revs 0xb7ff 0x27 0x0
    ∷ row pm unknown 2 all_revs 0x60fc 0x0 0x8
    ∷ row msi unknown 2 all_revs 0xffff 0xff00 0x5
    ∷ row msi unknown 2 all_revs 0xfe8e 0xe 0x80
    ∷ row msi unknown 4 all_revs 0x3 0x0 0x0
    ∷ row msi unknown 4 all_revs 0x0 0x0 0x0
    ∷ row msi unknown 2 all_revs 0x0 0x0 0x0
    ∷ row msi unknown 4 all_revs 0x0 0x0 0x0
    ∷ row msi unknown 4 all_revs 0x0 0x0 0x0
    ∷ row msix unknown 2 all_revs 0xffff 0xff00 0x11
    ∷ row msix unknown 2 all_revs 0x3fff 0x7ff 0x0
    ∷ row msix unknown 4 all_revs 0xffffffff 0xffffffff 0x0
    ∷ row msix unknown 4 all_revs 0xffffffff 0xffffffff 0x0
    ∷ row px unknown 2 all_revs 0xffff 0xff00 0x10
    ∷ row px unknown 2 all_revs 0xffff 0x3e00 0x2
    ∷ row px unknown 4 all_revs 0xffffffff 0xffc0fff 0x10008000
    ∷ row px unknown 2 all_revs 0x0 0xfff0 0x0
    ∷ row px unknown 2 all_revs 0xfff0 0x10 0x0
    ∷ row px unknown 4 all_revs 0xffffffff 0xff47ffff 0x0
    ∷ row px unknown 2 all_revs 0xfc34 0x200 0x0
    ∷ row px unknown 2 all_revs 0xffff 0x13ff 0x0
    ∷ row px unknown 16 all_revs 0xffffffffffffffff 0x0 0x0
    ∷ row px unknown 4 all_revs 0xffffffff 0xfc3b8f 0x10
    ∷ row px unknown 2 all_revs 0xffff9b0f 0x700f 0x0
    ∷ row aer unknown 4 all_revs 0xffffffff 0xfff00000 0x20001
    ∷ row aer unknown 4 all_revs 0xfc0007ef 0x3fff0f 0x0
    ∷ row aer unknown 4 all_revs 0xfc000fcf 0xf1c1 0x400000
    ∷ row aer unknown 4 all_revs 0xfc000fcf 0x3eaa000 0x462010
    ∷ row aer unknown 4 all_revs 0xffff0e3e 0xc000 0x0
    ∷ row aer unknown 4 all_revs 0xffff0e3e 0xc000 0x0
    ∷ row aer unknown 4 all_revs 0xfffff8af 0x7e0 0x0
    ∷ row aer unknown 16 all_revs 0xffffffffffffffff 0x0 0x0
    ∷ row aer unknown 16 all_revs 0xffffffffffffffff 0x0 0x0
    ∷ []

-- CTLSPC_TABLE
unfoldable pub ctl_table : List Metric
ctl_table =
    row none 0x0 8 all_revs 0xffffffffffffffff 0xff1fffff07ffff 0x0
    ∷ row none 0x8 4 (SpecRev.rev_10b ∷ []) 0xffffffff 0x0 0x10000
    ∷ row none 0x8 4 (SpecRev.rev_11 ∷ []) 0xffffffff 0x0 0x10100
    ∷ row none 0x8 4 (SpecRev.rev_12 ∷ SpecRev.rev_121 ∷ SpecRev.rev_13 ∷ []) 0xffffffff 0x0 0x10200
    ∷ row none 0xc 4 all_revs 0x0 0x0 0x0
    ∷ row none 0x10 4 all_revs 0x0 0x0 0x0
    ∷ row none 0x14 4 all_revs 0xff00000e 0x0 0x0
    ∷ row none 0x18 4 all_revs 0x0 0x0 0x0
    ∷ row none 0x1c 4 (SpecRev.rev_10b ∷ []) 0xffffffff 0x0 0x0
    ∷ row none 0x1c 4 (SpecRev.rev_11 ∷ SpecRev.rev_12 ∷ SpecRev.rev_121 ∷ SpecRev.rev_13 ∷ [])
        0xffffffef 0x12 0x0
    ∷ row none 0x20 4 (SpecRev.rev_10b ∷ []) 0xffffffff 0x0 0x0
    ∷ row none 0x20 4 (SpecRev.rev_11 ∷ SpecRev.rev_12 ∷ SpecRev.rev_121 ∷ SpecRev.rev_13 ∷ []) 0x0
        0x0 0x0
    ∷ row none 0x24 4 all_revs 0xf000f000 0x0 0x0
    ∷ row none 0x28 8 all_revs 0xfff 0xfffff000 0x0
    ∷ row none 0x30 8 all_revs 0xfff 0xfffff000 0x0
    ∷ row none 0x38 3784 all_revs 0xffffffffffffffff 0x0 0x0
    ∷ row none 0xf00 256 all_revs 0xffffffffffffffff 0x0 0x0
    ∷ []

-- The indices that the code names.
abbrev pub pcispc_sts : ℕ
pcispc_sts = 2

abbrev pub pcispc_cap : ℕ
pcispc_cap = 18

abbrev pub pcispc_pid : ℕ
pcispc_pid = 23

abbrev pub pcispc_mid : ℕ
pcispc_mid = 26

abbrev pub pcispc_mc : ℕ
pcispc_mc = 27

abbrev pub pcispc_mxid : ℕ
pcispc_mxid = 33

abbrev pub pcispc_mxc : ℕ
pcispc_mxc = 34

abbrev pub pcispc_pxid : ℕ
pcispc_pxid = 37

abbrev pub pcispc_aerid : ℕ
pcispc_aerid = 48

abbrev pub pcispc_aeruces : ℕ
pcispc_aeruces = 49

abbrev pub pcispc_aerhl : ℕ
pcispc_aerhl = 55

abbrev pub pcispc_aertlp : ℕ
pcispc_aertlp = 56

abbrev pub ctlspc_cap : ℕ
ctlspc_cap = 0

abbrev pub ctlspc_cc : ℕ
ctlspc_cc = 6

abbrev pub ctlspc_csts : ℕ
ctlspc_csts = 8

-- Where the registers of a revision end that start at `start` and leave no gap and no overlap.
abbrev pub ends : SpecRev → ℕ → List Metric → Option ℕ
ends rev start [] = some start
ends rev start (m ∷ r) =
    if valid_spec_rev m.spec_rev rev
    then (if m.offset == start then ends rev (start + m.size) r else none)
    else ends rev start r
