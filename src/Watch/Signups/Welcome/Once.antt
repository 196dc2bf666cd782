-- ===== src/Watch/Signups/Welcome/Once.antt =====
-- core/moderation_watch.py, `_send_welcomes`: who is sent a message, and how often.
use mstdnca_proxmox_tool.Base.{
  ℕ, ◌+◌, ◌≤◌, ◌≡◌, ◌≢◌, inl, inr, refl, ap, false, not, ◌||◌, Option, none, some, List, [], ◌∷◌,
  length, In, Bool-cases, Option-cases, leb, ltb, arith,
}
use mstdnca_proxmox_tool.Base.Text.{Text}
use mstdnca_proxmox_tool.Watch.{WelcomeRow, Account, Api, answer, api_error, Poll, Bot}
use mstdnca_proxmox_tool.Watch.Alerts.Distinct.{Extends-refl}
use mstdnca_proxmox_tool.Watch.Signups.Welcome.{
  is_welcomed, store_welcome, welcome_row, delivered, is_error, send_welcome, after_send,
  set_welcomed, is_bot, welcome_from, verified_id, send_welcomes, by_creation, insert_account,
  created_key, has_accounts, max_welcomes,
}
use mstdnca_proxmox_tool.Watch.Signups.Welcome.Sent.{
  Unique, Listed, Sent, Sent-same, Sent-stop, Sent-skip, Sent-Listed, Sent-if, Sent-post,
}

kept_order :
    (x a b : Account) (rest inner : List Account)
    → (In x inner → In x (a ∷ rest))
    → In x (b ∷ inner)
    → In x (a ∷ b ∷ rest)
kept_order x a b rest inner f (inl e) = inr (inl e)
kept_order x a b rest inner f (inr i) = elim (f i) [ inl e ↦ inl e | inr j ↦ inr (inr j) ]

In-insert_account :
    (x a : Account) (accounts : List Account)
    → In x (insert_account a accounts)
    → In x (a ∷ accounts)
unfolding insert_account
In-insert_account x a [] i = i
In-insert_account x a (b ∷ rest) i = elim (Bool-cases (ltb (created_key b) (created_key a))) [
  | inr c ↦ rw c at i
  | inl c ↦ kept_order x a b rest (insert_account a rest) (In-insert_account x a rest) (rw c at i)
]

In-by_creation :
    (x : Account) (accounts : List Account) → In x (by_creation accounts) → In x accounts
unfolding by_creation
In-by_creation x [] i = i
In-by_creation x (a ∷ rest) i = elim (In-insert_account x a (by_creation rest) i) [
  | inl e ↦ inl e
  | inr j ↦ inr (In-by_creation x rest j)
]

module _ (bot : Bot) (now : ℕ) where
  -- Nothing was sent. An error with an empty message counts as a success.
  after_send_failed :
      (bot_id : Option ℕ) (rest : List Account) (w : ℕ) (next : ℕ → Poll → Poll) (s : Poll)
      (error : Option Text)
      → w + 1 ≤ 20
      → ((c : ℕ) (t : Poll) → c ≤ 20 → Sent bot_id rest c t (next c t))
      → Sent bot_id rest w s (after_send bot now next w (s, error))
  unfolding after_send
  after_send_failed bot_id rest w next s error l h = elim (Bool-cases (is_error error)) [
    | inl e ↦ rw e (
        Sent-same bot_id rest w w s _ _ (omega arith) refl refl (Extends-refl s _ refl refl)
          (h w _ (omega (arith, l))))
    | inr e ↦ rw e (
        Sent-same bot_id rest w (w + 1) s s _ (omega arith) refl refl (Extends-refl s s refl refl)
          (h (w + 1) s l))
  ]

  not_bot :
      (bot_id : Option ℕ) (account_id : ℕ)
      → is_bot bot now bot_id account_id ≡ false
      → bot_id ≢ some account_id
  unfolding is_bot
  not_bot none account_id h = λ e. cc e
  not_bot (some bot_id) account_id h =
      λ e. let i : bot_id ≡ account_id = cc e in ground (arith, i, h)

  after_send-Sent :
      (bot_id : Option ℕ) (account : Account) (rest : List Account) (w : ℕ) (next : ℕ → Poll → Poll)
      (s : Poll) (reply : Api (Option ℕ))
      → is_welcomed account.id s.db.welcomes ≡ false
      → bot_id ≢ some account.id
      → w + 1 ≤ 20
      → ((c : ℕ) (t : Poll) → c ≤ 20 → Sent bot_id rest c t (next c t))
      → Sent bot_id
          (account ∷ rest)
          w
          s
          (after_send bot now next w (delivered now none account s reply))
  unfolding after_send delivered store_welcome
  after_send-Sent bot_id account rest w next s (answer status_id) f b l h =
      let row : WelcomeRow = welcome_row now none account status_id in
      let t : Poll = (delivered now none account s (answer status_id)).0 in
      Sent-post bot_id account rest w row s t (next (w + 1) t) (unfold welcome_row in refl) f b refl
        (unfold welcome_row in rw f refl) (Extends-refl s t refl refl) (h (w + 1) t l)
  after_send-Sent bot_id account rest w next s (api_error e) f b l h =
      Sent-skip bot_id account rest w s _
        (after_send_failed bot_id rest w next s (some e.message) l h)

  send-Sent :
      (bot_id : Option ℕ) (account : Account) (rest : List Account) (w : ℕ) (next : ℕ → Poll → Poll)
      (s : Poll)
      → is_welcomed account.id s.db.welcomes ≡ false
      → bot_id ≢ some account.id
      → w + 1 ≤ 20
      → ((c : ℕ) (t : Poll) → c ≤ 20 → Sent bot_id rest c t (next c t))
      → Sent bot_id
          (account ∷ rest)
          w
          s
          (after_send bot now next w (send_welcome bot now none false account s))
  unfolding send_welcome
  send-Sent bot_id account rest w next s f b l h = elim (Option-cases (bot.render account)) [
    | inl e ↦
        rw (f, e)
          (Sent-skip bot_id account rest w s _ (after_send_failed bot_id rest w next s _ l h))
    | inr (text, e) ↦
        rw (f, e)
          (after_send-Sent bot_id account rest w next s (bot.post_direct account.id text) f b l h)
  ]

  welcome_from-Sent :
      (bot_id : Option ℕ) (accounts : List Account) (i w : ℕ) (s : Poll)
      → w ≤ 20
      → Sent bot_id accounts w s (welcome_from bot now bot_id accounts i w s)
  unfolding welcome_from set_welcomed
  welcome_from-Sent bot_id [] i w s l =
      Sent-stop bot_id [] w s _ l refl refl (Extends-refl s _ refl refl)
  welcome_from-Sent bot_id (account ∷ rest) i w s l =
      let skipped = Sent-skip bot_id account rest w s _ (welcome_from-Sent bot_id rest i w s l) in
      Sent-if bot_id (account ∷ rest) w s (leb max_welcomes w) _ _
        (λ a. Sent-stop bot_id (account ∷ rest) w s _ l refl refl (Extends-refl s _ refl refl))
        (λ a.
          Sent-if bot_id (account ∷ rest) w s (is_bot bot now bot_id account.id) _ _ (λ b. skipped)
            (λ b.
              Sent-if bot_id (account ∷ rest) w s (is_welcomed account.id s.db.welcomes) _ _
                (λ f. skipped)
                (λ f.
                  Sent-if bot_id (account ∷ rest) w s (not (bot.welcome_budget_ok i)) _ _
                    (λ g.
                      Sent-stop bot_id (account ∷ rest) w s _ l refl refl
                        (Extends-refl s _ refl refl))
                    (λ g.
                      send-Sent bot_id account rest w
                        (λ c t. welcome_from bot now bot_id rest (i + 1) c t) s f
                        (not_bot bot_id account.id b) (ground arith)
                        (λ c t k. welcome_from-Sent bot_id rest (i + 1) c t k)))))

  pub send_welcomes-Sent :
      (accounts : List Account) (s : Poll)
      → Sent (verified_id bot.verify) accounts 0 s (send_welcomes bot now accounts s)
  unfolding send_welcomes
  send_welcomes-Sent accounts s =
      Sent-if _ accounts 0 s (s.summary.bootstrapped || not (has_accounts accounts)) _ _
        (λ b. Sent-stop _ accounts 0 s s (omega arith) refl refl (Extends-refl s s refl refl))
        (λ b.
          Sent-Listed _ (by_creation accounts) accounts 0 s _
            (λ id (x, i, e). (x, In-by_creation x accounts i, e))
            (welcome_from-Sent (verified_id bot.verify) (by_creation accounts) 0 0 s (omega arith)))

-- A run that has sent no message before and then sends welcomes sends at most 20, no two to one
-- account, and each to a listed account that is not the bot's own and had not been welcomed.
pub send_welcomes_once :
    (bot : Bot) (now : ℕ) (accounts : List Account) (s : Poll) (id : ℕ)
    → s.posted ≡ []
    → In id (send_welcomes bot now accounts s).posted
    → (length (send_welcomes bot now accounts s).posted ≤ 20)
      × Unique (send_welcomes bot now accounts s).posted
      × Listed id accounts
      × (is_welcomed id s.db.welcomes ≡ false)
      × (verified_id bot.verify ≢ some id)
send_welcomes_once bot now accounts s id e i =
    let h = send_welcomes-Sent bot now accounts s in
    let o = h.once (record { unique = rw e tt; stored = λ id' j. absurd (rw e at j) }) in
    elim (h.new id i) [
      | inl j ↦ absurd (rw e at j)
      | inr (l, w, b) ↦ (omega (arith, h.at_most, ap length e), o.unique, l, w, b)
    ]
