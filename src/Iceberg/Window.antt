-- ===== src/Iceberg/Window.antt =====
-- _utils/transforms.py: the partition transform that stands for a time window. Time is
-- pendulum's, and a parameter.
use community_integrations.Base.{
  ℕ, ◌≡◌, ◌≢◌, Bool, false, String, arith, ◌==◌, nat_eq, if◌then◌else◌, Result, ok, err, ◌↔◌, ◌⊎◌,
  Eq, string_eq,
}
use community_integrations.Iceberg.Error.{Error, not_implemented}

-- pyiceberg's partition transforms; `other` stands for those that the code does not make.
pub data Transform : Type 0 where
  identity hour day month : Transform
  other_transform : String → Transform

Transform-discrete : Discrete Transform
unfolding string_eq
Transform-discrete = hlevel string_eq.dec

instance unfoldable pub transform_eq : Eq Transform
unfolding Transform-discrete
transform_eq = record { dec = Transform-discrete }

-- An int. `negative n` is -(n + 1).
pub data Count : Type 0 where
  positive : ℕ → Count
  negative : ℕ → Count

abbrev pub is_count : Count → ℕ → Bool
is_count (positive m) n = m == n
is_count (negative m) n = false

-- `date_diff(start, end)`, a `pendulum.Interval`, by what is read off it: `in_hours()` and
-- `in_months()`.
pub record Calendar (Time : Type 0) : Type 0 where
  pub in_hours : Time → Time → Count
  pub in_months : Time → Time → Count

module _ {Time : Type 0} (cal : Calendar Time) where
  unfoldable pub diff_to_transformation : Time → Time → Result Error Transform
  diff_to_transformation start end =
      let hours = cal.in_hours start end in
      if is_count hours 1
      then ok hour
      else if is_count hours 24
      then ok day
      else if is_count hours 168
      then ok day
      else if is_count (cal.in_months start end) 1
      then ok month
      else err not_implemented

  -- The four windows that are supported, by their length, and no other: hourly, daily and weekly
  -- (which shares the day transform), and monthly where it has none of those lengths in hours.
  diff_to_transformation_iff :
      (start end : Time) (t : Transform)
      → (diff_to_transformation start end ≡ ok t) ↔ (
          ((cal.in_hours start end ≡ positive 1) × (t ≡ hour))
          ⊎ (((cal.in_hours start end ≡ positive 24) ⊎ (cal.in_hours start end ≡ positive 168))
              × (t ≡ day))
          ⊎ ((cal.in_hours start end ≢ positive 1)
              × (cal.in_hours start end ≢ positive 24)
              × (cal.in_hours start end ≢ positive 168)
              × (cal.in_months start end ≡ positive 1)
              × (t ≡ month)))
  unfolding diff_to_transformation nat_eq
  diff_to_transformation_iff start end t = (λ h. ground arith, λ h. ground arith)
