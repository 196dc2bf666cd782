-- ===== src/Collab/Cursor.antt =====
-- core/collaboration.py, `CursorHub`: the cursor positions of the users on a page. A username is a
-- number, and an instant is in milliseconds.
use mstdnca_proxmox_tool.Base.{
  ℕ, ◌+◌, ◌<◌, ◌==◌, ==_iff, ◌≡◌, ◌≢◌, refl, ◌∙◌, ltb, Bool, true, false, not, ◌&&◌, Option, none,
  some, keep, In, In-keep-elim, if◌then◌else◌, arith,
}
use mstdnca_proxmox_tool.Base.Text.{Text, text_eq}
use mstdnca_proxmox_tool.Base.Dict.{Dict, get, put, get-put, get-keep-some}

pub record Position : Type 0 where
  pub display_name : Text
  pub page : Text
  pub x_pct : ℕ
  pub y_pct : ℕ
  pub color : Text
  pub ts : ℕ

-- `EXPIRY`
abbrev pub expiry : ℕ
expiry = 3000

-- `v["ts"] < now - EXPIRY`
is_stale : ℕ → ℕ × Position → Bool
is_stale now (username, p) = ltb (p.ts + expiry) now

-- `update`
unfoldable pub update_cursor : ℕ → ℕ → Position → Dict Position → Dict Position
unfolding is_stale
update_cursor now username p positions =
    keep (λ e. not (is_stale now e)) (put username (record p { ts = now }) positions)

excluded : Option ℕ → ℕ → Bool
excluded none username = false
excluded (some other) username = username == other

-- The position is on the page, of another user, and fresh.
is_shown : ℕ → Text → Option ℕ → ℕ × Position → Bool
unfolding excluded
is_shown now page exclude (username, p) =
    text_eq p.page page && (not (excluded exclude username) && ltb now (p.ts + expiry))

-- `get_for_page`
unfoldable pub get_for_page : ℕ → Text → Option ℕ → Dict Position → Dict Position
unfolding is_shown
get_for_page now page exclude positions = keep (is_shown now page exclude) positions

not_stale :
    (now username : ℕ) (p : Position) → not (is_stale now (username, record p { ts = now })) ≡ true
unfolding is_stale
not_stale now username p = ground arith

-- After an update the user's position is the new one.
pub get-update_cursor :
    (now username : ℕ) (p : Position) (positions : Dict Position)
    → get username (update_cursor now username p positions) ≡ some (record p { ts = now })
unfolding update_cursor
get-update_cursor now username p positions =
    get-keep-some (λ e. not (is_stale now e)) username (record p { ts = now })
      (put username (record p { ts = now }) positions)
      (get-put username username (record p { ts = now }) positions ∙ hit) (not_stale now username p)
  where
    hit :
        (if username == username then some (record p { ts = now }) else get username positions)
        ≡ some (record p { ts = now })
    hit = rw ((==_iff username username).1 refl) refl

-- A cursor that is shown is a stored one, is at most 3 seconds old, and is not the viewer's own.
pub get_for_page_fresh :
    (now viewer username : ℕ) (page : Text) (p : Position) (positions : Dict Position)
    → In (username, p) (get_for_page now page (some viewer) positions)
    → In (username, p) positions
      × (username ≢ viewer)
      × (now < p.ts + 3000)
      × (text_eq p.page page ≡ true)
unfolding get_for_page is_shown excluded
get_for_page_fresh now viewer username page p positions i =
    let (j, t) = In-keep-elim (is_shown now page (some viewer)) (username, p) positions i in
    (
      j,
      (λ e. let k = (==_iff username viewer).1 e in ground (arith, t, k)),
      ground (arith, t),
      ground (arith, t),
    )
