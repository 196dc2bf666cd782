-- ===== src/Apps/Validate/Safe.antt =====
-- apps/utils.py: what the checks leave of a value that a shell on a remote host is given.
use mstdnca_proxmox_tool.Base.{
  ℕ, ◌==◌, ◌≡◌, ◌≢◌, ◌≤◌, ◌<◌, ap, sym, ◌∙◌, ltb, Bool, true, false, ◌||◌, [], ◌∷◌, any, any-intro,
  any-false-In, In, length, if◌then◌else◌, Bool-cases, ==_iff, inl, inr, arith,
}
use mstdnca_proxmox_tool.Base.Text.{Text, codes, text_eq, text_eq_refl}
use mstdnca_proxmox_tool.Base.Split.{split_on}
use mstdnca_proxmox_tool.Apps.Validate.{
  accepted, is_empty, is_root, unsafe_characters, has_traversal, too_many_parts, bad_file_name,
  all_in, full, is_blank, file_char, path_char, shell_char, path_end, abs_path, traverses, dots,
  bad_part, ascii_word, validate_shell_param, validate_abs_path, validate_safe_filename,
}

-- A letter, a digit, or one of `_`, `.`, `-`, `/`, `:` and `~`.
abbrev pub Plain : ℕ → Type 0
Plain c =
    (ascii_word c || ((c == 46) || ((c == 45) || ((c == 47) || ((c == 58) || (c == 126)))))) ≡ true

all_in-In : (class : ℕ → Bool) (s : Text) (c : ℕ) → all_in class s ≡ true → In c s → class c ≡ true
unfolding all_in
all_in-In class [] c h i = absurd i
all_in-In class (d ∷ s) c h (inl e) = elim (Bool-cases (class d)) [
  | inl p ↦ rw (← e) p
  | inr p ↦ let k = rw p at h in cc k
]
all_in-In class (d ∷ s) c h (inr i) = elim (Bool-cases (class d)) [
  | inl p ↦ all_in-In class s c (rw p at h) i
  | inr p ↦ let k = rw p at h in cc k
]

module _ (word : ℕ → Bool) (ascii-word : (c : ℕ) → c < 128 → word c ≡ ascii_word c) where
  shell_char-Plain : (c : ℕ) → c < 128 → shell_char word c ≡ true → Plain c
  unfolding shell_char path_char file_char
  shell_char-Plain c l h = let e = ascii-word c l in ground (arith, e)

  path_char-Plain : (c : ℕ) → c < 128 → path_char word c ≡ true → Plain c
  path_char-Plain c l h = shell_char-Plain c l (unfold shell_char in ground (arith, h))

  path_end-In : (s : Text) (c : ℕ) → path_end word s ≡ true → In c s → path_char word c ≡ true
  unfolding path_end path_char
  path_end-In [] c h i = absurd i
  path_end-In (d ∷ []) c h (inl e) = rw (← e) (ground (arith, h))
  path_end-In (d ∷ []) c h (inr i) = absurd i
  path_end-In (d ∷ x ∷ s) c h (inl e) = rw (← e) (ground (arith, h))
  path_end-In (d ∷ x ∷ s) c h (inr i) = path_end-In (x ∷ s) c (ground arith) i

  -- A value that `_validate_shell_param` lets through is not empty, and each of its ASCII characters is
  -- a letter, a digit or one of `_.-/:~`: nothing that a shell reads as syntax.
  pub validate_shell_param-Plain :
      (value : Text) (c : ℕ)
      → validate_shell_param word value ≡ accepted
      → In c value
      → c < 128
      → Plain c
  unfolding validate_shell_param full
  validate_shell_param-Plain [] c h i l = absurd i
  validate_shell_param-Plain (d ∷ s) c h i l =
      elim (Bool-cases (all_in (shell_char word) (d ∷ s))) [
        | inl e ↦ shell_char-Plain c l (all_in-In (shell_char word) (d ∷ s) c e i)
        | inr e ↦ let k = rw e at h in cc k
      ]

  abs_path_lem :
      (value : Text)
      → validate_abs_path word value ≡ accepted
      → (abs_path word value ≡ true)
        × (traverses word value ≡ false)
        × (text_eq value (codes "/") ≡ false)
  unfolding validate_abs_path
  abs_path_lem value h = elim (Bool-cases (is_blank value)) [
    | inl a ↦ let k : is_empty ≡ accepted = rw a at h in cc k
    | inr a ↦ elim (Bool-cases (text_eq value (codes "/"))) [
      | inl b ↦ let k : is_root ≡ accepted = rw (a, b) at h in cc k
      | inr b ↦ elim (Bool-cases (abs_path word value)) [
        | inr c ↦ let k : unsafe_characters ≡ accepted = rw (a, b, c) at h in cc k
        | inl c ↦ elim (Bool-cases (traverses word value)) [
          | inl d ↦ let k : has_traversal ≡ accepted = rw (a, b, c, d) at h in cc k
          | inr d ↦ (c, d, b)
        ]
      ]
    ]
  ]

  abs_path-head :
      (value : Text)
      → abs_path word value ≡ true
      → (rest : Text) × (value ≡ 47 ∷ rest) × (path_end word rest ≡ true)
  unfolding abs_path
  abs_path-head [] h = cc h
  abs_path-head (c ∷ s) h = elim (Bool-cases (c == 47)) [
    | inl e ↦ let i : c ≡ 47 = (==_iff c 47).0 e in (s, ap (λ x. x ∷ s) i, rw e at h)
    | inr e ↦ let k = rw e at h in cc k
  ]

  below_root-Plain :
      (rest : Text) (c : ℕ) → c < 128 → path_end word rest ≡ true → In c (47 ∷ rest) → Plain c
  below_root-Plain rest c l p (inl e) = rw (← e) (unfold ascii_word in ground arith)
  below_root-Plain rest c l p (inr i) = path_char-Plain c l (path_end-In rest c p i)

  -- Where `\w` has the letters, the digits and `_` of ASCII: a path that `_validate_abs_path` lets
  -- through starts at the root and names something below it, has no `..` among its parts, and each
  -- of its ASCII characters is a letter, a digit or one of `_.-/:~`.
  pub validate_abs_path_safe :
      (value : Text) (c : ℕ)
      → validate_abs_path word value ≡ accepted
      → In c value
      → c < 128
      → ((rest : Text) × (value ≡ 47 ∷ rest) × (rest ≢ []))
        × ¬ In (codes "..") (split_on 47 value)
        × Plain c
  validate_abs_path_safe value c h i l =
      let (a, t, r) = abs_path_lem value h in
      let (rest, e, p) = abs_path-head value a in
      (
        (rest, e, (λ q. let k : false ≡ true = unfold path_end in (rw q at p) in cc k)),
        (λ j.
            let k : traverses word value ≡ true =
              unfold traverses in
              any-intro (λ part. text_eq part (codes "..")) (codes "..") (split_on 47 value) j
                (text_eq_refl (codes "..")) in
            cc (sym k ∙ t)),
        below_root-Plain rest c l p (rw e at i),
      )

  full-elim :
      (class : ℕ → Bool) (s : Text) → full class s ≡ true → (all_in class s ≡ true) × (s ≢ [])
  unfolding full
  full-elim class [] h = cc h
  full-elim class (c ∷ s) h = (h, λ e. cc e)

  safe_filename_lem :
      (allow : Bool) (value : Text)
      → validate_safe_filename word allow value ≡ accepted
      → (ltb (if allow then 2 else 1) (length (split_on 47 value)) ≡ false)
        × (any (bad_part word) (split_on 47 value) ≡ false)
  unfolding validate_safe_filename
  safe_filename_lem allow value h = elim (Bool-cases (is_blank value)) [
    | inl a ↦ let k : is_empty ≡ accepted = rw a at h in cc k
    | inr a ↦ elim (Bool-cases (ltb (if allow then 2 else 1) (length (split_on 47 value)))) [
      | inl b ↦ let k : too_many_parts ≡ accepted = rw (a, b) at h in cc k
      | inr b ↦ elim (Bool-cases (any (bad_part word) (split_on 47 value))) [
        | inl c ↦ let k : bad_file_name ≡ accepted = rw (a, b, c) at h in cc k
        | inr c ↦ (b, c)
      ]
    ]
  ]

  good_part :
      (part : Text)
      → bad_part word part ≡ false
      → (full (file_char word) part ≡ true) × (dots word part ≡ false)
  unfolding bad_part
  good_part part h = elim (Bool-cases (full (file_char word) part)) [
    | inl e ↦ (e, rw e at h)
    | inr e ↦ let k : true ≡ false = rw e at h in cc k
  ]

  not_dots : (part : Text) → dots word part ≡ false → (part ≢ codes ".") × (part ≢ codes "..")
  unfolding dots text_eq
  not_dots part h =
      (λ e. let k : true ≡ false = rw e at h in cc k, λ e. let k : true ≡ false = rw e at h in cc k)

  -- A name that `_validate_safe_filename` lets through has one part, or two where a folder is allowed;
  -- no part is `.` or `..`, and each of its ASCII characters is a letter, a digit or one of `_.-`.
  pub validate_safe_filename_safe :
      (allow : Bool) (value part : Text) (c : ℕ)
      → validate_safe_filename word allow value ≡ accepted
      → In part (split_on 47 value)
      → In c part
      → c < 128
      → (length (split_on 47 value) ≤ (if allow then 2 else 1))
        × (part ≢ codes ".")
        × (part ≢ codes "..")
        × (ascii_word c || ((c == 46) || (c == 45)) ≡ true)
  validate_safe_filename_safe allow value part c h i j l =
      let (b, a) = safe_filename_lem allow value h in
      let good : bad_part word part ≡ false =
        any-false-In (bad_part word) (split_on 47 value) part a i in
      let (f, d) = good_part part good in
      let (x, y) = not_dots part d in
      let k = all_in-In (file_char word) part c (full-elim (file_char word) part f).0 j in
      let w = ascii-word c l in (ground arith, x, y, unfold file_char in ground (arith, k, w))
