-- ===== src/Watch/Notice/Sent.antt =====
-- core/moderation_watch.py, `send_report_notice`: what a successful call leaves.
use mstdnca_proxmox_tool.Base.{
  ℕ, ◌≤◌, ◌==◌, ◌≡◌, refl, ap, sym, ◌∙◌, ltb, Bool, true, false, not, ◌&&◌, Option, none, some,
  List, [], ◌∷◌, ◌++◌, any, any-intro, In-append_right, length, subst, Bool-cases, Option-cases,
  inl, inr, if◌then◌else◌, arith,
}
use mstdnca_proxmox_tool.Base.Text.{Text, Unicode, strip}
use mstdnca_proxmox_tool.Watch.{Api, answer, api_error}
use mstdnca_proxmox_tool.Mastodon.StatusLimit.{
  get_status_limit, get_status_limit-InRange, compose_direct,
}
use mstdnca_proxmox_tool.Watch.Notice.{
  NoticeRow, Notices, NoticeError, already_notified, not_rendered, too_long, post_failed, Request,
  is_notified, replace_notice, store_notice, notice_row, Composed, message, refused, edited,
  from_template, templated, composed, after_post, deliver, send_report_notice,
}

replace_notice-kept :
    (new : NoticeRow) (rows : List NoticeRow)
    → is_notified new.report_id rows ≡ true
    → is_notified new.report_id (replace_notice new rows) ≡ true
unfolding is_notified replace_notice any
replace_notice-kept new [] h = h
replace_notice-kept new (r ∷ rows) h = elim (Bool-cases (r.report_id == new.report_id)) [
  | inl e ↦ rw e (unfold any in ground arith)
  | inr e ↦ rw e (let k = rw e at h in let ih = replace_notice-kept new rows k in rw e ih)
]

store_notice-kept :
    (new : NoticeRow) (rows : List NoticeRow)
    → is_notified new.report_id (store_notice new rows) ≡ true
unfolding store_notice
store_notice-kept new rows = elim (Bool-cases (is_notified new.report_id rows)) [
  | inl e ↦ rw e (replace_notice-kept new rows e)
  | inr e ↦ rw e (
      unfold is_notified in
      any-intro (λ (r : NoticeRow). r.report_id == new.report_id) new (rows ++ new ∷ [])
        (In-append_right new rows (new ∷ []) (inl refl)) (ground arith))
]

message-fits :
    (m full : Text) (limit : ℕ) (error : NoticeError)
    → (if ltb limit (length m) then refused error else message m) ≡ message full
    → length full ≤ limit
message-fits m full limit error h = elim (Bool-cases (ltb limit (length m))) [
  | inl e ↦ let k : refused error ≡ message full = rw e at h in cc k
  | inr e ↦
      let k : message m ≡ message full = rw e at h in
      let same : m ≡ full = cc k in let l : length m ≤ limit = ground (arith, e) in rw same at l
]

edited-fits :
    (mention body full : Text) (limit : ℕ)
    → edited mention body limit ≡ message full
    → length full ≤ limit
unfolding edited
edited-fits mention body full limit h =
    message-fits (64 ∷ mention ++ 32 ∷ body) full limit
      (too_long (length (64 ∷ mention ++ 32 ∷ body)) limit) h

from_template-if :
    (test : Bool) (m : Text)
    → from_template (if test then none else some m)
      ≡ (if test then refused not_rendered else message m)
unfolding from_template
from_template-if true m = refl
from_template-if false m = refl

templated-fits :
    (mention full : Text) (body : Option Text) (limit : ℕ)
    → templated mention body limit ≡ message full
    → length full ≤ limit
unfolding templated compose_direct
templated-fits mention full none limit h = cc h
templated-fits mention full (some body) limit h =
    let m : Text = 64 ∷ mention ++ 32 ∷ body in
    message-fits m full limit not_rendered (sym (from_template-if (ltb limit (length m)) m) ∙ h)

composed-fits :
    (u : Unicode) (r : Request) (full : Text)
    → composed u r ≡ message full
    → length full ≤ get_status_limit u r.stored_limit
unfolding composed
composed-fits u r full h = elim (Option-cases r.text) [
  | inl e ↦
      templated-fits r.reporter.acct full r.rendered (get_status_limit u r.stored_limit) (rw e at h)
  | inr (text, e) ↦
      edited-fits r.reporter.acct (strip u text) full (get_status_limit u r.stored_limit)
        (rw e at h)
]

-- What a call that returns no error has done.
record Delivered (u : Unicode) (r : Request) (s t : Notices) : Type 0 where
  full : Text
  fits : length full ≤ get_status_limit u r.stored_limit
  posted : t.posted ≡ s.posted ++ full ∷ []
  noted : is_notified r.report_id t.rows ≡ true

post-Delivered :
    (u : Unicode) (r : Request) (full : Text) (s t : Notices) (reply : Api (Option ℕ))
    → length full ≤ get_status_limit u r.stored_limit
    → after_post r full s reply ≡ (t, none)
    → Delivered u r s t
unfolding after_post
post-Delivered u r full s t (api_error e) l h =
    let k : some (post_failed e.message) ≡ none = ap (λ x. x.1) h in cc k
post-Delivered u r full s t (answer status_id) l h = record {
  full = full;
  fits = l;
  posted = sym (ap (λ x. x.0.posted) h);
  noted =
      subst (λ rows. is_notified r.report_id rows ≡ true) (ap (λ x. x.0.rows) h)
        (unfold notice_row in store_notice-kept (notice_row r status_id) s.rows);
}

deliver-Delivered :
    (u : Unicode) (r : Request) (s t : Notices) (c : Composed)
    → composed u r ≡ c
    → deliver r s c ≡ (t, none)
    → Delivered u r s t
unfolding deliver
deliver-Delivered u r s t (refused e) p h = let k : some e ≡ none = ap (λ x. x.1) h in cc k
deliver-Delivered u r s t (message full) p h =
    post-Delivered u r full s t (r.post full) (composed-fits u r full p) h

-- A call that returns no error has posted one message, which is within the limit of the instance
-- and so of at most 25000 characters; a later call for the report that is not forced is refused
-- and changes nothing.
pub send_report_notice_once :
    (u : Unicode) (force : Bool) (r later : Request) (s t : Notices)
    → send_report_notice u force r s ≡ (t, none)
    → later.report_id ≡ r.report_id
    → ((full : Text) × (t.posted ≡ s.posted ++ full ∷ [])
        × (length full ≤ get_status_limit u r.stored_limit)
        × (length full ≤ 25000))
      × (send_report_notice u false later t ≡ (t, some already_notified))
unfolding send_report_notice
send_report_notice_once u force r later s t h same =
    elim (Bool-cases (is_notified r.report_id s.rows && not force)) [
      | inl e ↦
          let k : (s, some already_notified) ≡ (t, none) = rw e at h in
          let q : some already_notified ≡ none = ap (λ (x : Notices × Option NoticeError). x.1) k in
          cc q
      | inr e ↦
          let d = deliver-Delivered u r s t (composed u r) refl (rw e at h) in
          let n : is_notified later.report_id t.rows ≡ true = rw (← same) at d.noted in
          (
            (
              d.full,
              d.posted,
              d.fits,
              omega (arith, d.fits, (get_status_limit-InRange u r.stored_limit).1),
            ),
            rw n refl,
          )
    ]
