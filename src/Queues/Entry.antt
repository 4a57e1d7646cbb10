-- ===== src/Queues/Entry.antt =====
-- `Queues/ce.cpp` and `Queues/ceDefs.h`: the status of a completion entry.
pub mod Find
pub mod Lookup
use tnvme.Base.{
  ℕ, zero, suc, ◌+◌, ◌/◌, ◌%◌, ◌^◌, Bool, true, false, not, ◌&&◌, ◌||◌, Option, none, some, List,
  [], ◌∷◌, Result, ok, thrown, throw_if, get_elem?, ◌==◌, if◌then◌else◌,
}

-- `StatbyBits`, as the compiler lays its fields out from the lowest bit on, less the reserved ones.
pub record StatByBits : Type 0 where
  pub p : ℕ
  pub sc : ℕ
  pub sct : ℕ
  pub m : ℕ
  pub dnr : ℕ

-- `union StatField`, from the word of 16 bits.
unfoldable pub stat_by_bits : ℕ → StatByBits
stat_by_bits word = record {
  p = word % 2;
  sc = word / 2 % 2 ^ 8;
  sct = word / 2 ^ 9 % 2 ^ 3;
  m = word / 2 ^ 14 % 2;
  dnr = word / 2 ^ 15 % 2;
}

-- `mCEStatMetrics`: the status code type and the status code of each CEStat, which is the index of its
-- row.
abbrev pub ce_stat_metrics : List (ℕ × ℕ)
ce_stat_metrics =
    (0, 0x00)
    ∷ (0, 0x01)
    ∷ (0, 0x02)
    ∷ (0, 0x03)
    ∷ (0, 0x04)
    ∷ (0, 0x05)
    ∷ (0, 0x06)
    ∷ (0, 0x07)
    ∷ (0, 0x08)
    ∷ (0, 0x09)
    ∷ (0, 0x0a)
    ∷ (0, 0x0b)
    ∷ (0, 0x0c)
    ∷ (0, 0x0d)
    ∷ (0, 0x0e)
    ∷ (0, 0x0f)
    ∷ (0, 0x10)
    ∷ (0, 0x11)
    ∷ (0, 0x12)
    ∷ (0, 0x13)
    ∷ (0, 0x14)
    ∷ (0, 0x80)
    ∷ (0, 0x81)
    ∷ (0, 0x82)
    ∷ (0, 0x83)
    ∷ (0, 0x84)
    ∷ (1, 0x00)
    ∷ (1, 0x01)
    ∷ (1, 0x02)
    ∷ (1, 0x03)
    ∷ (1, 0x04)
    ∷ (1, 0x05)
    ∷ (1, 0x06)
    ∷ (1, 0x07)
    ∷ (1, 0x08)
    ∷ (1, 0x09)
    ∷ (1, 0x0a)
    ∷ (1, 0x0b)
    ∷ (1, 0x0c)
    ∷ (1, 0x0d)
    ∷ (1, 0x0e)
    ∷ (1, 0x0f)
    ∷ (1, 0x10)
    ∷ (1, 0x11)
    ∷ (1, 0x12)
    ∷ (1, 0x13)
    ∷ (1, 0x14)
    ∷ (1, 0x15)
    ∷ (1, 0x16)
    ∷ (1, 0x17)
    ∷ (1, 0x18)
    ∷ (1, 0x19)
    ∷ (1, 0x1a)
    ∷ (1, 0x1b)
    ∷ (1, 0x1c)
    ∷ (1, 0x80)
    ∷ (1, 0x81)
    ∷ (1, 0x82)
    ∷ (2, 0x80)
    ∷ (2, 0x81)
    ∷ (2, 0x82)
    ∷ (2, 0x83)
    ∷ (2, 0x84)
    ∷ (2, 0x85)
    ∷ (2, 0x86)
    ∷ (2, 0x87)
    ∷ (0xfe, 0xfe)
    ∷ []

abbrev pub same_codes : StatByBits → ℕ × ℕ → Bool
same_codes b (sct, sc) = b.sct == sct && b.sc == sc

-- The codes of CESTAT_SUCCESS, whose row is the first.
abbrev pub is_success : StatByBits → Bool
is_success b = b.sct == 0 && b.sc == 0

-- What `ValidatePeek` finds out, by the row of the expected status; `none` for a status that has no
-- row.
unfoldable pub validate_row : StatByBits → Option (ℕ × ℕ) → Option Bool
validate_row b none = none
validate_row b (some row) = some (
    if not (same_codes b row)
    then false
    else if is_success b && not (b.m == 0)
    then false
    else true)

-- `ValidatePeek`
unfoldable pub validate_peek : ℕ → StatByBits → Option Bool
validate_peek status b = validate_row b (get_elem? ce_stat_metrics status)

-- `Validate`
unfoldable pub validate : ℕ → StatByBits → Option (Result (Unit {0}))
validate status b = elim (validate_peek status b) [
  | none ↦ none
  | some valid ↦ some (throw_if (not valid))
]

-- `ValidateDetailed`
unfoldable pub validate_detailed : StatByBits → StatByBits → Result (Unit {0})
validate_detailed status b =
    if not (status.dnr == b.dnr)
      || not (status.m == b.m)
      || not (status.p == b.p)
      || not (status.sc == b.sc)
      || not (status.sct == b.sct)
    then thrown
    else if is_success b
    then throw_if (not (b.m == 0))
    else ok tt

-- `InvalidatePeek`, which does not use the status that it is given.
unfoldable pub invalidate_peek : ℕ → StatByBits → Bool
invalidate_peek status b = not (is_success b)

-- The loop of `GetCEStat`, by the rows from `i` on.
unfoldable pub find_codes : StatByBits → ℕ → List (ℕ × ℕ) → Result ℕ
find_codes b i [] = thrown
find_codes b i (row ∷ rest) =
    let later = find_codes b (i + 1) rest in if same_codes b row then ok i else later

-- `GetCEStat`
unfoldable pub get_ce_stat : StatByBits → Result ℕ
get_ce_stat b = find_codes b 0 ce_stat_metrics
