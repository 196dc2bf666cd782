-- ===== src/Collab/Terminal/Buffer.antt =====
-- core/collaboration.py `TerminalSession._append`: what the catch-up buffer holds.
use mstdnca_proxmox_tool.Base.{
  ℕ, ◌+◌, ◌-◌, ◌≤◌, ◌<◌, ◌≡◌, refl, sym, ap, ◌∙◌, List, [], ◌∷◌, ◌++◌, ltb, length, arith, ◌⊎◌, inl,
  inr, Bool-cases, ltb→lt,
}
use mathlib.Core.List.{append_assoc, append-nil}
use mstdnca_proxmox_tool.Base.Text.{Text}
use mstdnca_proxmox_tool.Collab.Terminal.{
  TerminalSession, max_buffer, new_session, trim, append, Step, appends, fans_out, registers,
  removes, controls, perform_steps, perform, fan_out, register, remove_subscriber, send_control,
}

-- How many characters the chunks hold together.
abbrev pub total : List Text → ℕ
total [] = 0
total (c ∷ cs) = length c + total cs

total-append : (xs ys : List Text) → total (xs ++ ys) ≡ total xs + total ys
total-append [] ys = omega arith
total-append (x ∷ xs) ys = omega (arith, total-append xs ys)

-- `chunks` are the last ones of `outs`, and one more would not fit.
abbrev pub IsLongestFit : List Text → List Text → Type 0
IsLongestFit outs chunks =
    (outs ≡ chunks)
    ⊎ ((before : List Text) × (c : Text) × (outs ≡ before ++ c ∷ chunks)
        × (max_buffer < length c + total chunks))

pub record IsValid (outs : List Text) (s : TerminalSession) : Type 0 where
  pub counted : s.buffer_size ≡ total s.buffer_chunks
  pub bounded : s.buffer_size ≤ max_buffer
  pub longest : IsLongestFit outs s.buffer_chunks

trim-total :
    (chunks : List Text) → (trim (total chunks) chunks).0 ≡ total (trim (total chunks) chunks).1
unfolding trim
trim-total [] = refl
trim-total (c ∷ cs) = elim (Bool-cases (ltb max_buffer (total (c ∷ cs)))) [
  | inl h ↦ rw (h, left) (trim-total cs)
  | inr h ↦ rw h
]
  where
    left : length c + total cs - length c ≡ total cs
    left = omega arith

trim_bounded : (chunks : List Text) → (trim (total chunks) chunks).0 ≤ max_buffer
unfolding trim
trim_bounded [] = omega arith
trim_bounded (c ∷ cs) = elim (Bool-cases (ltb max_buffer (total (c ∷ cs)))) [
  | inl h ↦ rw (h, left) (trim_bounded cs)
  | inr h ↦ rw h (ground arith)
]
  where
    left : length c + total cs - length c ≡ total cs
    left = omega arith

-- Dropping the first chunk of a longest fit that has grown too large.
IsLongestFit-tail :
    (outs : List Text) (c : Text) (cs : List Text)
    → max_buffer < total (c ∷ cs)
    → IsLongestFit outs (c ∷ cs)
    → IsLongestFit outs cs
IsLongestFit-tail outs c cs over (inl e) = inr ([], c, e, over)
IsLongestFit-tail outs c cs over (inr (before, c', e, _)) =
    inr (before ++ c' ∷ [], c, e ∙ sym (append_assoc before (c' ∷ []) (c ∷ cs)), over)

trim-IsLongestFit :
    (outs chunks : List Text)
    → IsLongestFit outs chunks
    → IsLongestFit outs (trim (total chunks) chunks).1
unfolding trim
trim-IsLongestFit outs [] h = h
trim-IsLongestFit outs (c ∷ cs) h = elim (Bool-cases (ltb max_buffer (total (c ∷ cs)))) [
  | inl e ↦ rw (e, left) (trim-IsLongestFit outs cs (IsLongestFit-tail outs c cs (ltb→lt _ _ e) h))
  | inr e ↦ rw e h
]
  where
    left : length c + total cs - length c ≡ total cs
    left = omega arith

IsLongestFit-append :
    (outs chunks : List Text) (d : Text)
    → IsLongestFit outs chunks
    → IsLongestFit (outs ++ d ∷ []) (chunks ++ d ∷ [])
IsLongestFit-append outs chunks d (inl e) = inl (ap (λ x. x ++ d ∷ []) e)
IsLongestFit-append outs chunks d (inr (before, c, e, over)) = inr (
  before,
  c,
  ap (λ x. x ++ d ∷ []) e ∙ append_assoc before (c ∷ chunks) (d ∷ []),
  omega (arith, total-append chunks (d ∷ [])),
)

append-IsValid :
    (outs : List Text) (s : TerminalSession) (d : Text)
    → IsValid outs s
    → IsValid (outs ++ d ∷ []) (append d s)
unfolding append
append-IsValid outs s d v =
    let grown : s.buffer_size + length d ≡ total (s.buffer_chunks ++ d ∷ []) =
      omega (arith, v.counted, total-append s.buffer_chunks (d ∷ [])) in
    rw grown (record {
      counted = trim-total (s.buffer_chunks ++ d ∷ []);
      bounded = trim_bounded (s.buffer_chunks ++ d ∷ []);
      longest = trim-IsLongestFit _ _ (IsLongestFit-append outs s.buffer_chunks d v.longest);
    })

-- The chunks that the steps appended.
unfoldable pub appended : List Step → List Text
appended [] = []
appended (appends text ∷ steps) = text ∷ appended steps
appended (_ ∷ steps) = appended steps

-- A step that does not append leaves the buffer alone.
same_buffer-IsValid :
    (outs : List Text) (s t : TerminalSession)
    → t.buffer_size ≡ s.buffer_size
    → t.buffer_chunks ≡ s.buffer_chunks
    → IsValid outs s
    → IsValid outs t
same_buffer-IsValid outs s t e f v = record {
  counted = rw (e, f) v.counted;
  bounded = rw e v.bounded;
  longest = rw f v.longest;
}

perform_steps-IsValid :
    (outs : List Text) (steps : List Step) (s : TerminalSession)
    → IsValid outs s
    → IsValid (outs ++ appended steps) (perform_steps steps s)
unfolding perform_steps appended perform fan_out register remove_subscriber send_control
perform_steps-IsValid outs [] s v = rw append-nil v
perform_steps-IsValid outs (appends text ∷ steps) s v =
    rw (append_assoc outs (text ∷ []) (appended steps)) at (
      perform_steps-IsValid (outs ++ text ∷ []) steps (append text s)
        (append-IsValid outs s text v))
perform_steps-IsValid outs (fans_out text ∷ steps) s v =
    perform_steps-IsValid outs steps (fan_out text s) (same_buffer-IsValid outs s _ refl refl v)
perform_steps-IsValid outs (registers ws catchup ∷ steps) s v =
    perform_steps-IsValid outs steps (register ws catchup s)
      (same_buffer-IsValid outs s _ refl refl v)
perform_steps-IsValid outs (removes ws ∷ steps) s v =
    perform_steps-IsValid outs steps (remove_subscriber ws s)
      (same_buffer-IsValid outs s _ refl refl v)
perform_steps-IsValid outs (controls msg ∷ steps) s v =
    perform_steps-IsValid outs steps (send_control msg s) (same_buffer-IsValid outs s _ refl refl v)

-- After any steps of any threads, the catch-up buffer holds at most 100 KB, its counter is right, and
-- it is the longest run of last appended chunks that fits: either everything so far, or one more
-- chunk would not fit.
pub buffer_is_longest_fit :
    (steps : List Step) → IsValid (appended steps) (perform_steps steps new_session)
buffer_is_longest_fit steps =
    perform_steps-IsValid [] steps new_session
      (record { counted = refl; bounded = omega arith; longest = inl refl })
