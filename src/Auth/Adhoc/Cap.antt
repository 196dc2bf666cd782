-- ===== src/Auth/Adhoc/Cap.antt =====
-- core/adhoc_credentials.py: how large the store can get.
use mstdnca_proxmox_tool.Base.{
  ℕ, zero, suc, ◌+◌, ◌-◌, ◌≤◌, refl, Bool, true, false, [], ◌∷◌, arith, ltb, if◌then◌else◌, length,
  inl, inr, In,
}
use mstdnca_proxmox_tool.Base.Dict.{Dict, length-pop-In}
use mstdnca_proxmox_tool.Auth.Adhoc.{
  Entry, max_entries, oldest, pop_oldest, drop_to_cap, live, prune,
}

In-choice :
    (b : Bool) (x best e : ℕ × Entry) (d : Dict Entry)
    → In x ((if b then e else best) ∷ d)
    → In x (best ∷ e ∷ d)
In-choice true x best e d i = inr i
In-choice false x best e d (inl p) = inl p
In-choice false x best e d (inr i) = inr (inr i)

pub oldest-In : (best : ℕ × Entry) (d : Dict Entry) → In (oldest best d) (best ∷ d)
unfolding oldest
oldest-In best [] = inl refl
oldest-In best (e ∷ d) =
    let sooner = ltb e.1.expires_at best.1.expires_at in
    In-choice sooner _ best e d (oldest-In (if sooner then e else best) d)

length-pop_oldest : (d : Dict Entry) → length (pop_oldest d) ≤ length d - 1
unfolding pop_oldest
length-pop_oldest [] = omega arith
length-pop_oldest (e ∷ d) = omega (arith, length-pop-In (oldest e d) (e ∷ d) (oldest-In e d))

length-drop_to_cap :
    (fuel : ℕ) (d : Dict Entry)
    → length d ≤ fuel + max_entries
    → length (drop_to_cap fuel d) ≤ max_entries
unfolding drop_to_cap
length-drop_to_cap zero d h = omega arith
length-drop_to_cap (suc fuel) d h =
    ground (arith, length-drop_to_cap fuel (pop_oldest d), length-pop_oldest d)

-- After a pruning at most 256 entries are left.
pub length-prune : (now : ℕ) (d : Dict Entry) → length (prune now d) ≤ max_entries
unfolding prune
length-prune now d = length-drop_to_cap (length (live now d)) (live now d) (omega arith)
