-- ===== src/Control/Config/Apart.antt =====
-- The fields of CC do not overlap, and it is decided whether two are the same.
use tnvme.Base.{
  ℕ, ◌+◌, ◌≤◌, ◌≡◌, ◌≢◌, ◌⊎◌, inl, inr, refl, sym, ap, ◌∙◌, ◌==◌, if◌then◌else◌, arith, ℕ_discrete,
}
use tnvme.Control.Config.Fields.{CcField, iocqes, iosqes, shn, ams, mps, css, en, low, width}

-- No two fields overlap.
pub apart : (f g : CcField) → f ≢ g → (low g + width g ≤ low f) ⊎ (low f + width f ≤ low g)
apart iocqes iocqes h = absurd (h refl)
apart iocqes iosqes h = inl (omega arith)
apart iocqes shn h = inl (omega arith)
apart iocqes ams h = inl (omega arith)
apart iocqes mps h = inl (omega arith)
apart iocqes css h = inl (omega arith)
apart iocqes en h = inl (omega arith)
apart iosqes iocqes h = inr (omega arith)
apart iosqes iosqes h = absurd (h refl)
apart iosqes shn h = inl (omega arith)
apart iosqes ams h = inl (omega arith)
apart iosqes mps h = inl (omega arith)
apart iosqes css h = inl (omega arith)
apart iosqes en h = inl (omega arith)
apart shn iocqes h = inr (omega arith)
apart shn iosqes h = inr (omega arith)
apart shn shn h = absurd (h refl)
apart shn ams h = inl (omega arith)
apart shn mps h = inl (omega arith)
apart shn css h = inl (omega arith)
apart shn en h = inl (omega arith)
apart ams iocqes h = inr (omega arith)
apart ams iosqes h = inr (omega arith)
apart ams shn h = inr (omega arith)
apart ams ams h = absurd (h refl)
apart ams mps h = inl (omega arith)
apart ams css h = inl (omega arith)
apart ams en h = inl (omega arith)
apart mps iocqes h = inr (omega arith)
apart mps iosqes h = inr (omega arith)
apart mps shn h = inr (omega arith)
apart mps ams h = inr (omega arith)
apart mps mps h = absurd (h refl)
apart mps css h = inl (omega arith)
apart mps en h = inl (omega arith)
apart css iocqes h = inr (omega arith)
apart css iosqes h = inr (omega arith)
apart css shn h = inr (omega arith)
apart css ams h = inr (omega arith)
apart css mps h = inr (omega arith)
apart css css h = absurd (h refl)
apart css en h = inl (omega arith)
apart en iocqes h = inr (omega arith)
apart en iosqes h = inr (omega arith)
apart en shn h = inr (omega arith)
apart en ams h = inr (omega arith)
apart en mps h = inr (omega arith)
apart en css h = inr (omega arith)
apart en en h = absurd (h refl)

-- The field that begins at a bit.
field_at : ℕ → CcField
field_at i =
    if i == 20
    then iocqes
    else if i == 16
    then iosqes
    else if i == 14
    then shn
    else if i == 11
    then ams
    else if i == 7
    then mps
    else if i == 4
    then css
    else en

field_at-low : (f : CcField) → field_at (low f) ≡ f
unfolding field_at
field_at-low iocqes = refl
field_at-low iosqes = refl
field_at-low shn = refl
field_at-low ams = refl
field_at-low mps = refl
field_at-low css = refl
field_at-low en = refl

low-injective : (f g : CcField) → low f ≡ low g → f ≡ g
low-injective f g e = sym (field_at-low f) ∙ ap field_at e ∙ field_at-low g

pub CcField_discrete : (f g : CcField) → (f ≡ g) ⊎ (f ≢ g)
CcField_discrete f g = elim (ℕ_discrete (low f) (low g)) [
  | yes e ↦ inl (low-injective f g e)
  | no n ↦ inr (λ e. n (ap low e))
]
