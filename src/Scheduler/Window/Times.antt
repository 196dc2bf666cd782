-- ===== src/Scheduler/Window/Times.antt =====
-- core/scheduler.py `parse_window_time`: the texts that it reads, and the ones on which it raises.
use mstdnca_proxmox_tool.Base.{
  ℕ, ◌+◌, ◌*◌, ◌/◌, ◌%◌, ◌<◌, ◌≡◌, ◌≢◌, refl, ap, ◌∙◌, true, false, not, ◌&&◌, ◌||◌, Option, none,
  some, [], ◌∷◌, ◌⊎◌, In, map, ◌==◌, arith, inl, inr, Bool-cases,
}
use mstdnca_proxmox_tool.Base.Text.{
  Text, Unicode, codes, text_eq, text_eq_refl, strip, isdigit, all_digits, parse_digits,
}
use mstdnca_proxmox_tool.Scheduler.Window.{
  returns, value_error, int_of, clock_time, parse_hh_mm, parse_window_time, or_empty,
  minute_of_time, MaintenanceWindow, in_maintenance_window, day_name, ◌>>=◌,
}
use mstdnca_proxmox_tool.Scheduler.Window.Membership.{day_length}

module _ (u : Unicode) where
  -- Two digits pass `isdigit`, and are read as a number if they are decimal.
  isdigit_two :
      (a b : ℕ) → u.is_digit a ≡ true → u.is_digit b ≡ true → isdigit u (a ∷ b ∷ []) ≡ true
  unfolding isdigit all_digits
  isdigit_two a b da db = rw (da, db)

  parse_two :
      (a b x y : ℕ)
      → u.decimal a ≡ some x
      → u.decimal b ≡ some y
      → b ≢ 95
      → parse_digits u (a ∷ b ∷ []) ≡ some (x * 10 + y)
  unfolding parse_digits
  parse_two a b x y pa pb n = ground arith

  ascii_two :
      (x y : ℕ)
      → x < 10
      → y < 10
      → (isdigit u ((48 + x) ∷ (48 + y) ∷ []) ≡ true)
        × (parse_digits u ((48 + x) ∷ (48 + y) ∷ []) ≡ some (x * 10 + y))
  ascii_two x y hx hy =
      let (dx, px) = u.ascii-digit (48 + x) (omega arith) (omega arith) in
      let (dy, py) = u.ascii-digit (48 + y) (omega arith) (omega arith) in
      (
        isdigit_two _ _ dx dy,
        parse_two _ _ x y (px ∙ ap some (omega arith)) (py ∙ ap some (omega arith)) (omega arith),
      )

  parse_hh_mm_lem :
      (a b d e h m : ℕ)
      → (isdigit u (a ∷ b ∷ []) ≡ true) × (parse_digits u (a ∷ b ∷ []) ≡ some h)
      → (isdigit u (d ∷ e ∷ []) ≡ true) × (parse_digits u (d ∷ e ∷ []) ≡ some m)
      → parse_hh_mm u (a ∷ b ∷ 58 ∷ d ∷ e ∷ []) ≡ returns (clock_time h m)
  unfolding parse_hh_mm
  parse_hh_mm_lem a b d e h m (ia, pa) (id, pd) = rw (ia, id, pa, pd)

  -- A zero-padded `HH:MM` of ASCII digits, with any space around it, reads as that time of day.
  pub parse_window_time_hh_mm :
      (text : Text) (h m : ℕ)
      → h < 24
      → m < 60
      → strip u text ≡ (48 + h / 10) ∷ (48 + h % 10) ∷ 58 ∷ (48 + m / 10) ∷ (48 + m % 10) ∷ []
      → parse_window_time u (some text) ≡ returns (some ((h * 60 + m) * minute_of_time))
  unfolding parse_window_time
  parse_window_time_hh_mm text h m hl ml e = rw e (
      parse_hh_mm_lem _ _ _ _ _ _ (ascii_two (h / 10) (h % 10) (omega arith) (omega arith))
        (ascii_two (m / 10) (m % 10) (omega arith) (omega arith))
      ∙ unfold clock_time in ground arith)

  clock_time_valid :
      (h m t : ℕ) → clock_time h m ≡ some t → (t < day_length) × (t % minute_of_time ≡ 0)
  unfolding clock_time
  clock_time_valid h m t e = ground arith

  no_number :
      (a b : ℕ) → (u.decimal a ≡ none) ⊎ (u.decimal b ≡ none) → parse_digits u (a ∷ b ∷ []) ≡ none
  unfolding parse_digits
  no_number a b (inl e) = rw e refl
  no_number a b (inr e) = elim (u.decimal a) [
    | none ↦ ground (arith, e)
    | some x ↦ ground (arith, e)
  ]

  read_valid :
      (p q : Option ℕ) (t : ℕ)
      → (do hour ← int_of p; minute ← int_of q; returns (clock_time hour minute)) ≡ returns (some t)
      → (t < day_length) × (t % minute_of_time ≡ 0)
  unfolding int_of
  read_valid none q t h = cc
  read_valid (some x) none t h = cc
  read_valid (some x) (some y) t h = clock_time_valid x y t (cc h)

  parse_hh_mm_valid :
      (text : Text) (t : ℕ)
      → parse_hh_mm u text ≡ returns (some t)
      → (t < day_length) × (t % minute_of_time ≡ 0)
  unfolding parse_hh_mm
  parse_hh_mm_valid (a ∷ b ∷ c ∷ d ∷ e ∷ []) t h =
      elim (Bool-cases (not (c == 58) || not (isdigit u (a ∷ b ∷ []) && isdigit u (d ∷ e ∷ [])))) [
        | inl bad ↦ cc (rw bad at h)
        | inr good ↦
            read_valid (parse_digits u (a ∷ b ∷ [])) (parse_digits u (d ∷ e ∷ [])) t (rw good at h)
      ]
  parse_hh_mm_valid _ t h = cc

  -- What is read is a time of day, on the minute.
  pub parse_window_time_valid :
      (value : Option Text) (t : ℕ)
      → parse_window_time u value ≡ returns (some t)
      → (t < day_length) × (t % minute_of_time ≡ 0)
  unfolding parse_window_time
  parse_window_time_valid value t h = parse_hh_mm_valid (strip u (or_empty value)) t h

  isdigit_pair :
      (a b d e : ℕ) → isdigit u (a ∷ b ∷ d ∷ e ∷ []) ≡ true → isdigit u (a ∷ b ∷ []) ≡ true
  unfolding isdigit all_digits
  isdigit_pair a b d e h = ground arith

  isdigit_last :
      (a b d e : ℕ) → isdigit u (a ∷ b ∷ d ∷ e ∷ []) ≡ true → isdigit u (d ∷ e ∷ []) ≡ true
  unfolding isdigit all_digits
  isdigit_last a b d e h = ground arith

  -- The conversion of two pairs raises where either has no number.
  raises_either :
      (p q : Option ℕ)
      → (p ≡ none) ⊎ (q ≡ none)
      → (do hour ← int_of p; minute ← int_of q; returns (clock_time hour minute)) ≡ value_error
  unfolding int_of
  raises_either p q (inl e) = rw e refl
  raises_either none q (inr e) = refl
  raises_either (some x) q (inr e) = rw e refl

  pair_without_number :
      (a b d e : ℕ)
      → In none (map u.decimal (a ∷ b ∷ d ∷ e ∷ []))
      → (parse_digits u (a ∷ b ∷ []) ≡ none) ⊎ (parse_digits u (d ∷ e ∷ []) ≡ none)
  pair_without_number a b d e (inl h) = inl (no_number a b (inl h))
  pair_without_number a b d e (inr (inl h)) = inl (no_number a b (inr h))
  pair_without_number a b d e (inr (inr (inl h))) = inr (no_number d e (inl h))
  pair_without_number a b d e (inr (inr (inr (inl h)))) = inr (no_number d e (inr h))
  pair_without_number a b d e (inr (inr (inr (inr x)))) = elim x [ ]

  -- The window applies on the weekday: every day, or the one that it names.
  abbrev pub AppliesOn : ℕ → MaintenanceWindow → Type 0
  AppliesOn weekday window =
      let day = map u.to_lower (strip u (or_empty window.day_of_week)) in
      (day ≡ codes "daily") ⊎ (day ≡ day_name weekday)

  AppliesOn-day_test :
      (weekday : ℕ) (window : MaintenanceWindow)
      → AppliesOn weekday window
      → let day = map u.to_lower (strip u (or_empty window.day_of_week)) in
        not (text_eq day (codes "daily")) && not (text_eq day (day_name weekday)) ≡ false
  AppliesOn-day_test weekday window (inl e) = let t = text_eq_refl (codes "daily") in rw (e, t)
  AppliesOn-day_test weekday window (inr e) =
      let t = text_eq_refl (day_name weekday) in rw (e, t) (ground arith)

  -- A text that, less the space around it, is `HH:MM` with four characters that all pass `isdigit`,
  -- at least one of them not being decimal, does not give None: the conversion raises; and then so does
  -- the membership test of a window that starts at it, on every day that the window names.
  pub parse_window_time_raises :
      (window : MaintenanceWindow) (text : Text) (a b d e weekday current : ℕ)
      → strip u text ≡ a ∷ b ∷ 58 ∷ d ∷ e ∷ []
      → isdigit u (a ∷ b ∷ d ∷ e ∷ []) ≡ true
      → In none (map u.decimal (a ∷ b ∷ d ∷ e ∷ []))
      → window.start_time ≡ some text
      → AppliesOn weekday window
      → (parse_window_time u (some text) ≡ value_error)
        × (in_maintenance_window u window weekday current ≡ value_error)
  unfolding in_maintenance_window
  parse_window_time_raises window text a b d e weekday current s digits odd start day =
      let raised : parse_window_time u (some text) ≡ value_error =
        unfold parse_window_time parse_hh_mm in
        rw (s, isdigit_pair a b d e digits, isdigit_last a b d e digits)
          (raises_either (parse_digits u (a ∷ b ∷ [])) (parse_digits u (d ∷ e ∷ []))
            (pair_without_number a b d e odd)) in
      (raised, rw (AppliesOn-day_test weekday window day, start, raised))
