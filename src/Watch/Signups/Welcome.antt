-- ===== src/Watch/Signups/Welcome.antt =====
-- core/moderation_watch.py, `send_welcome` and `_send_welcomes`: the direct messages to new accounts.
pub mod Sent
pub mod Once
use mstdnca_proxmox_tool.Base.{
  ℕ, zero, suc, ◌+◌, ◌==◌, ltb, leb, Bool, true, false, not, ◌&&◌, ◌||◌, Option, none, some, List,
  [], ◌∷◌, ◌++◌, any, if◌then◌else◌,
}
use mstdnca_proxmox_tool.Base.Text.{Text, codes}
use mstdnca_proxmox_tool.Watch.{
  WelcomeRow, Account, Failure, Api, answer, api_error, welcome_failed, Db, Summary, Poll, Bot,
}

-- `welcome_record`: whether there is a row.
unfoldable pub is_welcomed : ℕ → List WelcomeRow → Bool
is_welcomed account_id rows = any (λ r. r.account_id == account_id) rows

-- The first row of the account replaced, as the session writes it back.
replace_welcome : WelcomeRow → List WelcomeRow → List WelcomeRow
replace_welcome new [] = []
replace_welcome new (r ∷ rows) =
    let rest = replace_welcome new rows in
    if r.account_id == new.account_id then new ∷ rows else r ∷ rest

store_welcome : WelcomeRow → List WelcomeRow → List WelcomeRow
unfolding is_welcomed replace_welcome
store_welcome new rows =
    if is_welcomed new.account_id rows then replace_welcome new rows else rows ++ new ∷ []

welcome_row : ℕ → Option ℕ → Account → Option ℕ → WelcomeRow
welcome_row now sent_by account status_id = record {
  account_id = account.id;
  acct = account.acct;
  sent_at = now;
  sent_by_user_id = sent_by;
  status_id = status_id;
}

-- The message went out: the row is stored.
delivered : ℕ → Option ℕ → Account → Poll → Api (Option ℕ) → Poll × Option Text
unfolding store_welcome welcome_row
delivered now sent_by account s (answer status_id) = (
  record s {
    db = record s.db {
      welcomes = store_welcome (welcome_row now sent_by account status_id) s.db.welcomes;
    };
    posted = s.posted ++ account.id ∷ [];
  },
  none,
)
delivered now sent_by account s (api_error e) = (s, some e.message)

-- `error` is true in an `if`: the empty message of a failure is not.
is_error : Option Text → Bool
is_error none = false
is_error (some []) = false
is_error (some (c ∷ message)) = true

message_of : Option Text → Text
message_of none = []
message_of (some message) = message

-- `sorted(accounts, key=created_at or "")`, which keeps the order of equals.
created_key : Account → ℕ
created_key account = elim account.created_at [ none ↦ 0 | some t ↦ suc t ]

insert_account : Account → List Account → List Account
unfolding created_key
insert_account a [] = a ∷ []
insert_account a (b ∷ rest) =
    let later = insert_account a rest in
    if ltb (created_key b) (created_key a) then b ∷ later else a ∷ b ∷ rest

unfoldable pub by_creation : List Account → List Account
unfolding insert_account
by_creation [] = []
by_creation (a ∷ rest) = insert_account a (by_creation rest)

-- `if accounts`
unfoldable pub has_accounts : List Account → Bool
has_accounts [] = false
has_accounts (account ∷ rest) = true

-- `MAX_WELCOMES_PER_RUN`
abbrev pub max_welcomes : ℕ
max_welcomes = 20

-- The bot's own account, where its token is verified.
pub verified_id : Api (Option ℕ) → Option ℕ
verified_id (answer id) = id
verified_id (api_error e) = none

module _ (bot : Bot) (now : ℕ) where
  -- `send_welcome`: the state and its error.
  unfoldable pub send_welcome : Option ℕ → Bool → Account → Poll → Poll × Option Text
  unfolding is_welcomed delivered
  send_welcome sent_by force account s =
      if is_welcomed account.id s.db.welcomes && not force
      then (s, some (codes "already welcomed"))
      else elim (bot.render account) [
        | none ↦ (s, some (codes "The welcome message could not be rendered."))
        | some text ↦ delivered now sent_by account s (bot.post_direct account.id text)
      ]

  -- `if error: ... continue`, then the next account.
  after_send : (ℕ → Poll → Poll) → ℕ → Poll × Option Text → Poll
  unfolding is_error message_of
  after_send next welcomed (s, error) =
      if is_error error
      then next welcomed (record s {
        summary = record s.summary {
          errors = s.summary.errors ++ welcome_failed (message_of error) ∷ [];
        };
      })
      else next (welcomed + 1) s

  set_welcomed : ℕ → Poll → Poll
  set_welcomed welcomed s = record s { summary = record s.summary { welcomed = welcomed } }

  is_bot : Option ℕ → ℕ → Bool
  is_bot none account_id = false
  is_bot (some bot_id) account_id = account_id == bot_id

  -- The loop; `i` counts the requests.
  welcome_from : Option ℕ → List Account → ℕ → ℕ → Poll → Poll
  unfolding is_welcomed send_welcome after_send set_welcomed is_bot
  welcome_from bot_id [] i welcomed s = set_welcomed welcomed s
  welcome_from bot_id (account ∷ rest) i welcomed s =
      let skipped = welcome_from bot_id rest i welcomed s in
      if leb max_welcomes welcomed
      then set_welcomed welcomed s
      else if is_bot bot_id account.id
      then skipped
      else if is_welcomed account.id s.db.welcomes
      then skipped
      else if not (bot.welcome_budget_ok i)
      then set_welcomed welcomed (record s { summary = record s.summary { deferred = true } })
      else after_send (λ w t. welcome_from bot_id rest (i + 1) w t) welcomed
          (send_welcome none false account s)

  -- `_send_welcomes`
  unfoldable pub send_welcomes : List Account → Poll → Poll
  unfolding welcome_from verified_id by_creation has_accounts
  send_welcomes accounts s =
      if s.summary.bootstrapped || not (has_accounts accounts)
      then s
      else welcome_from (verified_id bot.verify) (by_creation accounts) 0 0 s
