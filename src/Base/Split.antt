-- ===== src/Base/Split.antt =====
-- `str.split`, `in`, `splitlines` and `rstrip` on texts.
use mstdnca_proxmox_tool.Base.Tests.{◌==◌, if◌then◌else◌}
use Prim.Native.Nat.{ℕ}
use mathlib.Core.Bool.{Bool, true, false, ◌||◌, ◌&&◌}
use mathlib.Core.Option.{Option, none, some}
use mathlib.Core.List.{List, [], ◌∷◌, reverse}
use mstdnca_proxmox_tool.Base.Text.{Text, Unicode, after_prefix}

unfoldable pub push_char : ℕ → List Text → List Text
push_char c [] = (c ∷ []) ∷ []
push_char c (w ∷ ws) = (c ∷ w) ∷ ws

-- `s.split(sep)` for one character.
unfoldable pub split_on : ℕ → Text → List Text
unfolding push_char
split_on sep [] = [] ∷ []
split_on sep (c ∷ s) = let rest = split_on sep s in if c == sep then [] ∷ rest else push_char c rest

drop_empty : List Text → List Text
drop_empty [] = []
drop_empty ([] ∷ ws) = drop_empty ws
drop_empty ((c ∷ w) ∷ ws) = (c ∷ w) ∷ drop_empty ws

split_spaces : Unicode → Text → List Text
split_spaces u [] = [] ∷ []
split_spaces u (c ∷ s) =
    let rest = split_spaces u s in if u.is_space c then [] ∷ rest else push_char c rest

-- `s.split()`
unfoldable pub words : Unicode → Text → List Text
unfolding drop_empty split_spaces push_char
words u s = drop_empty (split_spaces u s)

is_break : ℕ → Bool
is_break c =
    c == 10
    || c == 11
    || c == 12
    || c == 13
    || c == 28
    || c == 29
    || c == 30
    || c == 133
    || c == 8232
    || c == 8233

is_some : Option Text → Bool
is_some none = false
is_some (some s) = true

starts : Text → Text → Bool
unfolding is_some
starts p s = is_some (after_prefix p s)

-- The lines of a text up to `splitlines`' final line, which is dropped there if it is empty.
break_lines : Text → List Text
break_lines [] = [] ∷ []
break_lines (c ∷ s) =
    let rest = break_lines s in
    if is_break c
    then if c == 13 && starts (10 ∷ []) s then rest else [] ∷ rest
    else push_char c rest

drop_last_empty : List Text → List Text
drop_last_empty [] = []
drop_last_empty ([] ∷ []) = []
drop_last_empty (l ∷ ls) = l ∷ drop_last_empty ls

-- `s.splitlines()`
unfoldable pub splitlines : Text → List Text
unfolding break_lines is_break starts drop_last_empty push_char
splitlines s = drop_last_empty (break_lines s)

-- `sub in s`
unfoldable pub contains : Text → Text → Bool
unfolding starts
contains sub [] = starts sub []
contains sub (c ∷ s) = starts sub (c ∷ s) || contains sub s

or_here : Option Text → Option Text → Option Text
or_here none here = here
or_here (some t) here = some t

-- What follows the last occurrence of `sub` in `s`: `s.split(sub)[-1]`, for a `sub` that does not
-- overlap itself, when there is one.
unfoldable pub after_last : Text → Text → Option Text
unfolding or_here
after_last sub [] = after_prefix sub []
after_last sub (c ∷ s) = or_here (after_last sub s) (after_prefix sub (c ∷ s))

drop_char : ℕ → Text → Text
drop_char x [] = []
drop_char x (c ∷ s) = let rest = drop_char x s in if c == x then rest else c ∷ s

-- `s.rstrip(x)` for one character.
unfoldable pub rstrip : ℕ → Text → Text
unfolding drop_char
rstrip x s = reverse (drop_char x (reverse s))

-- `s.split(sep, 1)`, for a text that holds `sep`.
unfoldable pub split_once : ℕ → Text → Text × Text
split_once sep [] = ([], [])
split_once sep (c ∷ s) =
    let (first, rest) = split_once sep s in if c == sep then ([], s) else (c ∷ first, rest)
