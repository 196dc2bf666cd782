-- ===== src/Watch/Signups/Welcome/Sent.antt =====
-- core/moderation_watch.py, `_send_welcomes`: what the messages of a run are, and how the steps of the
-- loop add to them.
use mstdnca_proxmox_tool.Base.{
  ℕ, ◌+◌, ◌≤◌, ◌==◌, ◌≡◌, ◌≢◌, ◌⊎◌, inl, inr, refl, ap, sym, ◌∙◌, Bool, true, false, Option, some,
  List, [], ◌∷◌, ◌++◌, any-intro, any-elim, length, length-append, In, In-append-elim,
  In-append_left, In-append_right, Bool-cases, if◌then◌else◌, arith,
}
use mstdnca_proxmox_tool.Watch.{WelcomeRow, Account, Poll}
use mstdnca_proxmox_tool.Watch.Alerts.Distinct.{Extends, Extends-trans}
use mstdnca_proxmox_tool.Watch.Signups.Welcome.{is_welcomed}

-- No id stands twice in the list.
abbrev pub Unique : List ℕ → Type 0
Unique [] = Unit
Unique (x ∷ xs) = ¬ In x xs × Unique xs

-- No account was sent two messages, and each of them has its row.
pub record Once (s : Poll) : Type 0 where
  pub unique : Unique s.posted
  pub stored : (id : ℕ) → In id s.posted → is_welcomed id s.db.welcomes ≡ true

abbrev pub Listed : ℕ → List Account → Type 0
Listed id accounts = (account : Account) × In account accounts × (account.id ≡ id)

-- The messages that a run of the loop sends to `accounts`, after `welcomed` of them.
pub record Sent (bot_id : Option ℕ) (accounts : List Account) (welcomed : ℕ) (s t : Poll)
    : Type 0 where
  pub at_most : length t.posted + welcomed ≤ length s.posted + 20
  pub new :
      (id : ℕ)
      → In id t.posted
      → In id s.posted
        ⊎ (Listed id accounts × (is_welcomed id s.db.welcomes ≡ false) × (bot_id ≢ some id))
  pub once : Once s → Once t
  pub extends : Extends s t

Unique-snoc : (xs : List ℕ) (x : ℕ) → Unique xs → ¬ In x xs → Unique (xs ++ x ∷ [])
Unique-snoc [] x h n = ((λ i. i), tt)
Unique-snoc (y ∷ ys) x h n = (
  (λ i. elim (In-append-elim y ys (x ∷ []) i) [
    | inl j ↦ h.0 j
    | inr (inl e) ↦ n (inl (sym e))
    | inr (inr k) ↦ k
  ]),
  Unique-snoc ys x h.1 (λ i. n (inr i)),
)

is_welcomed-append :
    (id : ℕ) (rows : List WelcomeRow) (r : WelcomeRow)
    → is_welcomed id rows ≡ true
    → is_welcomed id (rows ++ r ∷ []) ≡ true
unfolding is_welcomed
is_welcomed-append id rows r h =
    let (a, i, t) = any-elim (λ (x : WelcomeRow). x.account_id == id) rows h in
    any-intro (λ (x : WelcomeRow). x.account_id == id) a (rows ++ r ∷ [])
      (In-append_left a rows (r ∷ []) i) t

is_welcomed_snoc :
    (id : ℕ) (rows : List WelcomeRow) (r : WelcomeRow)
    → r.account_id ≡ id
    → is_welcomed id (rows ++ r ∷ []) ≡ true
unfolding is_welcomed
is_welcomed_snoc id rows r h =
    any-intro (λ (x : WelcomeRow). x.account_id == id) r (rows ++ r ∷ [])
      (In-append_right r rows (r ∷ []) (inl refl)) (ground arith)

-- Where the longer list has no row of the id, the shorter has none.
is_welcomed-shrink :
    (id : ℕ) (rows : List WelcomeRow) (r : WelcomeRow)
    → is_welcomed id (rows ++ r ∷ []) ≡ false
    → is_welcomed id rows ≡ false
is_welcomed-shrink id rows r h = elim (Bool-cases (is_welcomed id rows)) [
  | inl e ↦ let k = is_welcomed-append id rows r e in cc (sym k ∙ h)
  | inr e ↦ e
]

pub Sent-same :
    (bot_id : Option ℕ) (accounts : List Account) (w c : ℕ) (s t v : Poll)
    → w ≤ c
    → t.posted ≡ s.posted
    → t.db.welcomes ≡ s.db.welcomes
    → Extends s t
    → Sent bot_id accounts c t v
    → Sent bot_id accounts w s v
Sent-same bot_id accounts w c s t v l p q x h = record {
  at_most = omega (arith, l, h.at_most, ap length p);
  new = rw (← p, ← q) h.new;
  once = λ o. h.once (record { unique = rw p o.unique; stored = rw (p, q) o.stored });
  extends = Extends-trans s t v x h.extends;
}

pub Sent-stop :
    (bot_id : Option ℕ) (accounts : List Account) (w : ℕ) (s t : Poll)
    → w ≤ 20
    → t.posted ≡ s.posted
    → t.db.welcomes ≡ s.db.welcomes
    → Extends s t
    → Sent bot_id accounts w s t
Sent-stop bot_id accounts w s t l p q x = record {
  at_most = rw p (omega (arith, l));
  new = λ id i. inl (rw p at i);
  once = λ o. record { unique = rw p o.unique; stored = rw (p, q) o.stored };
  extends = x;
}

pub Sent-skip :
    (bot_id : Option ℕ) (account : Account) (rest : List Account) (w : ℕ) (s t : Poll)
    → Sent bot_id rest w s t
    → Sent bot_id (account ∷ rest) w s t
Sent-skip bot_id account rest w s t h = record {
  at_most = h.at_most;
  new = λ id i. elim (h.new id i) [
    | inl j ↦ inl j
    | inr ((a, k, e), f, g) ↦ inr ((a, inr k, e), f, g)
  ];
  once = h.once;
  extends = h.extends;
}

pub Sent-Listed :
    (bot_id : Option ℕ) (accounts others : List Account) (w : ℕ) (s t : Poll)
    → ((id : ℕ) → Listed id accounts → Listed id others)
    → Sent bot_id accounts w s t
    → Sent bot_id others w s t
Sent-Listed bot_id accounts others w s t f h = record {
  at_most = h.at_most;
  new = λ id i. elim (h.new id i) [ inl j ↦ inl j | inr (m, g, c) ↦ inr (f id m, g, c) ];
  once = h.once;
  extends = h.extends;
}

pub Sent-if :
    (bot_id : Option ℕ) (accounts : List Account) (w : ℕ) (s : Poll) (test : Bool) (x y : Poll)
    → (test ≡ true → Sent bot_id accounts w s x)
    → (test ≡ false → Sent bot_id accounts w s y)
    → Sent bot_id accounts w s (if test then x else y)
Sent-if bot_id accounts w s true x y p q = p refl
Sent-if bot_id accounts w s false x y p q = q refl

-- The account was sent its message and the row was added; then the loop goes on.
pub Sent-post :
    (bot_id : Option ℕ) (account : Account) (rest : List Account) (w : ℕ) (row : WelcomeRow)
    (s t v : Poll)
    → row.account_id ≡ account.id
    → is_welcomed account.id s.db.welcomes ≡ false
    → bot_id ≢ some account.id
    → t.posted ≡ s.posted ++ account.id ∷ []
    → t.db.welcomes ≡ s.db.welcomes ++ row ∷ []
    → Extends s t
    → Sent bot_id rest (w + 1) t v
    → Sent bot_id (account ∷ rest) w s v
Sent-post bot_id account rest w row s t v r f b p q x h = record {
  at_most = omega (arith, h.at_most, ap length p, length-append s.posted (account.id ∷ []));
  new = λ id i. elim (h.new id i) [
    | inl j ↦ elim (In-append-elim id s.posted (account.id ∷ []) (rw p at j)) [
      | inl k ↦ inl k
      | inr (inl e) ↦ inr ((account, inl refl, e), rw (← e) f, rw (← e) b)
      | inr (inr k) ↦ absurd k
    ]
    | inr ((a, k, e), g, c) ↦
        inr ((a, inr k, e), is_welcomed-shrink id s.db.welcomes row (rw q at g), c)
  ];
  once = λ o. h.once (record {
    unique = rw p (
        Unique-snoc s.posted account.id o.unique
          (λ i. let k = o.stored account.id i in cc (sym k ∙ f)));
    stored = λ id i. elim (In-append-elim id s.posted (account.id ∷ []) (rw p at i)) [
      | inl k ↦ rw q (is_welcomed-append id s.db.welcomes row (o.stored id k))
      | inr (inl e) ↦ rw q (is_welcomed_snoc id s.db.welcomes row (r ∙ e))
      | inr (inr k) ↦ absurd k
    ];
  });
  extends = Extends-trans s t v x h.extends;
}
