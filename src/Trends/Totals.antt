-- ===== src/Trends/Totals.antt =====
-- core/update_trends.py, `weekly_apply_series`: no row is lost and none counts twice.
use mstdnca_proxmox_tool.Base.{
  ℕ, zero, suc, ◌+◌, ◌-◌, ◌*◌, ◌/◌, ◌≤◌, ◌<◌, ◌≡◌, refl, ap, ◌∙◌, ltb, List, [], ◌∷◌, keep, length,
  Bool-cases, inl, inr, arith,
}
use mstdnca_proxmox_tool.Trends.{
  HistoryRow, Bucket, day, or_zero, num_weeks, empty_buckets, least, week_of, add_row, add_rows,
  is_selected, weekly_apply_series,
}

pub total_of : List Bucket → ℕ
total_of [] = 0
total_of (b ∷ bs) = b.total + total_of bs

pub security_of : List Bucket → ℕ
security_of [] = 0
security_of (b ∷ bs) = b.security + security_of bs

pub packages_of : List HistoryRow → ℕ
packages_of [] = 0
packages_of (r ∷ rows) = or_zero r.package_count + packages_of rows

pub critical_of : List HistoryRow → ℕ
critical_of [] = 0
critical_of (r ∷ rows) = or_zero r.security_count + critical_of rows

length-empty_buckets : (since n i : ℕ) → length (empty_buckets since n i) ≡ n
unfolding empty_buckets
length-empty_buckets since zero i = refl
length-empty_buckets since (suc n) i = ap (λ k. suc k) (length-empty_buckets since n (suc i))

empty_buckets_zero :
    (since n i : ℕ)
    → (total_of (empty_buckets since n i) ≡ 0) × (security_of (empty_buckets since n i) ≡ 0)
unfolding empty_buckets total_of security_of
empty_buckets_zero since zero i = (refl, refl)
empty_buckets_zero since (suc n) i =
    let (a, b) = empty_buckets_zero since n (suc i) in (omega (arith, a), omega (arith, b))

length-add_row :
    (i : ℕ) (row : HistoryRow) (bs : List Bucket) → length (add_row i row bs) ≡ length bs
unfolding add_row
length-add_row i row [] = refl
length-add_row zero row (b ∷ bs) = refl
length-add_row (suc i) row (b ∷ bs) = ap (λ k. suc k) (length-add_row i row bs)

add_row_counts :
    (i : ℕ) (row : HistoryRow) (bs : List Bucket)
    → i < length bs
    → (total_of (add_row i row bs) ≡ total_of bs + or_zero row.package_count)
      × (security_of (add_row i row bs) ≡ security_of bs + or_zero row.security_count)
unfolding add_row total_of security_of
add_row_counts i row [] l = omega (arith, l)
add_row_counts zero row (b ∷ bs) l = (omega arith, omega arith)
add_row_counts (suc i) row (b ∷ bs) l =
    let (a, c) = add_row_counts i row bs (omega (arith, l)) in (omega (arith, a), omega (arith, c))

week_of-lt : (since weeks t : ℕ) → 1 ≤ weeks → week_of since weeks t < weeks
unfolding week_of least
week_of-lt since weeks t l = elim (Bool-cases (ltb ((t - since) / day / 7) (weeks - 1))) [
  | inl e ↦ let k = (t - since) / day / 7 in rw e (ground (arith, e, l))
  | inr e ↦ rw e (omega (arith, l))
]

add_rows_counts :
    (since weeks : ℕ) (rows : List HistoryRow) (bs : List Bucket)
    → 1 ≤ weeks
    → length bs ≡ weeks
    → (length (add_rows since weeks rows bs) ≡ weeks)
      × (total_of (add_rows since weeks rows bs) ≡ total_of bs + packages_of rows)
      × (security_of (add_rows since weeks rows bs) ≡ security_of bs + critical_of rows)
unfolding add_rows packages_of critical_of
add_rows_counts since weeks [] bs l e = (e, omega arith, omega arith)
add_rows_counts since weeks (row ∷ rows) bs l e =
    let i = week_of since weeks row.applied_at in
    let w = week_of-lt since weeks row.applied_at l in
    let (a, c) = add_row_counts i row bs (omega (arith, w, e)) in
    let (x, y, z) =
      add_rows_counts since weeks rows (add_row i row bs) l (length-add_row i row bs ∙ e) in
    (x, omega (arith, y, a), omega (arith, z, c))

num_weeks_positive : (days : ℕ) → 1 ≤ num_weeks days
unfolding num_weeks
num_weeks_positive days = let k = (days + 6) / 7 in ground arith

-- For at least one guest, the series has one bucket for each week, and its totals are those of the
-- guests' rows from the start of the period on: each is counted in one week, a row without a count
-- as 0.
pub weekly_apply_series_total :
    (now days guest : ℕ) (guests : List ℕ) (rows : List HistoryRow)
    → (length (weekly_apply_series now days (guest ∷ guests) rows) ≡ num_weeks days)
      × (total_of (weekly_apply_series now days (guest ∷ guests) rows)
          ≡ packages_of (keep (is_selected (guest ∷ guests) (now - days * day)) rows))
      × (security_of (weekly_apply_series now days (guest ∷ guests) rows)
          ≡ critical_of (keep (is_selected (guest ∷ guests) (now - days * day)) rows))
unfolding weekly_apply_series
weekly_apply_series_total now days guest guests rows =
    let since = now - days * day in
    let (p, q) = empty_buckets_zero since (num_weeks days) 0 in
    let (x, y, z) =
      add_rows_counts since (num_weeks days) (keep (is_selected (guest ∷ guests) since) rows)
        (empty_buckets since (num_weeks days) 0) (num_weeks_positive days)
        (length-empty_buckets since (num_weeks days) 0) in
    (x, omega (arith, y, p), omega (arith, z, q))
