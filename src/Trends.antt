-- ===== src/Trends.antt =====
-- core/update_trends.py, `weekly_apply_series`: the applied updates in weekly totals. An instant is in
-- seconds; the rows are those of the table `UpdateHistory`.
pub mod Totals
use mstdnca_proxmox_tool.Base.{
  ℕ, zero, suc, ◌+◌, ◌-◌, ◌*◌, ◌/◌, ◌==◌, ltb, leb, Bool, true, false, not, ◌&&◌, Option, none,
  some, List, [], ◌∷◌, any, keep, if◌then◌else◌,
}

pub record HistoryRow : Type 0 where
  pub guest_id : ℕ
  pub applied_at : ℕ
  pub package_count : Option ℕ
  pub security_count : Option ℕ

pub record Bucket : Type 0 where
  pub week_start : ℕ
  pub total : ℕ
  pub security : ℕ

abbrev pub day : ℕ
day = 86400

-- `row.package_count or 0`
unfoldable pub or_zero : Option ℕ → ℕ
or_zero none = 0
or_zero (some n) = n

-- `max(1, -(-days // 7))`
unfoldable pub num_weeks : ℕ → ℕ
num_weeks days = let weeks = (days + 6) / 7 in if weeks == 0 then 1 else weeks

-- The buckets of the weeks from `i` on, `n` of them.
empty_buckets : ℕ → ℕ → ℕ → List Bucket
empty_buckets since zero i = []
empty_buckets since (suc n) i =
    record { week_start = since + i * (7 * day); total = 0; security = 0 }
    ∷ empty_buckets since n (suc i)

least : ℕ → ℕ → ℕ
least a b = if ltb a b then a else b

-- `min(offset_days // 7, num_weeks - 1)`
unfoldable pub week_of : ℕ → ℕ → ℕ → ℕ
unfolding least
week_of since weeks applied_at = least ((applied_at - since) / day / 7) (weeks - 1)

-- The row added to the bucket at the index.
add_row : ℕ → HistoryRow → List Bucket → List Bucket
unfolding or_zero
add_row i row [] = []
add_row zero row (b ∷ bs) =
    record b {
      total = b.total + or_zero row.package_count;
      security = b.security + or_zero row.security_count;
    }
    ∷ bs
add_row (suc i) row (b ∷ bs) = b ∷ add_row i row bs

add_rows : ℕ → ℕ → List HistoryRow → List Bucket → List Bucket
unfolding add_row week_of
add_rows since weeks [] bs = bs
add_rows since weeks (row ∷ rows) bs =
    add_rows since weeks rows (add_row (week_of since weeks row.applied_at) row bs)

-- The query's filter.
unfoldable pub is_selected : List ℕ → ℕ → HistoryRow → Bool
is_selected guest_ids since row = any (λ g. g == row.guest_id) guest_ids && leb since row.applied_at

is_empty : List ℕ → Bool
is_empty [] = true
is_empty (g ∷ gs) = false

-- `weekly_apply_series`; `since` is `now - timedelta(days=days)`.
unfoldable pub weekly_apply_series : ℕ → ℕ → List ℕ → List HistoryRow → List Bucket
unfolding empty_buckets add_rows is_empty num_weeks is_selected
weekly_apply_series now days guest_ids rows =
    let since = now - days * day in
    let buckets = empty_buckets since (num_weeks days) 0 in
    if is_empty guest_ids
    then buckets
    else add_rows since (num_weeks days) (keep (is_selected guest_ids since) rows) buckets
