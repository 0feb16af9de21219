-- ===== src/Binning/Ranges.antt =====
-- base/NUtils.cxx: `GetAxisRangeInBase`, the bins of a base axis that a bin of a grouped axis
-- covers. The result false, with both bounds -1, is `none`. An `int` is an integer.
use ndmspc.Base.Int.{ℤ, pos, ◌+ℤ◌, ◌-ℤ◌, ◌*ℤ◌, ltb_ℤ}
use ndmspc.Base.{ℕ, ◌+◌, ◌/◌, ◌%◌, ◌==◌, Option, none, some, if◌then◌else◌}

-- Groups of `rebin` bins are counted from `start` on; the axis has `nbins` bins.
unfoldable pub range_in_base : ℕ → ℤ → ℤ → ℤ → Option (ℤ × ℤ)
range_in_base nbins rebin start bin =
    let low = rebin *ℤ (bin -ℤ pos 1) +ℤ start in
    let high = low +ℤ rebin -ℤ pos 1 in
    if ltb_ℤ low (pos 1) then none else if ltb_ℤ (pos nbins) high then none else some (low, high)

-- `rebin` and `rebin_start` of an axis with `nbins` bins over a base axis.
unfoldable pub rebin_of : ℕ → ℕ → ℕ
rebin_of base nbins = base / nbins

unfoldable pub start_of : ℕ → ℕ → ℕ
start_of base nbins = if rebin_of base nbins == 1 then 1 else base % nbins + 1

abbrev pub low_or_minus_one : Option (ℤ × ℤ) → ℤ
low_or_minus_one none = ℤ.negsuc 0
low_or_minus_one (some r) = r.0

abbrev pub high_or_minus_one : Option (ℤ × ℤ) → ℤ
high_or_minus_one none = ℤ.negsuc 0
high_or_minus_one (some r) = r.1

-- The bounds in the base axis of the bins from `min` to `max`; the result of the code is always
-- true.
unfoldable pub bins_in_base : ℕ → ℕ → ℤ → ℤ → ℤ × ℤ
bins_in_base base nbins min max =
    let range = range_in_base base (pos (rebin_of base nbins)) (pos (start_of base nbins)) in
    (low_or_minus_one (range min), high_or_minus_one (range max))
