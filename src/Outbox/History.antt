-- ===== src/Outbox/History.antt =====
-- What the steps of apps/api/internal/paymentoutbox/repository.go leave of each command.
use lapangan_go.Base.{
  ◌≡◌, refl, sym, subst, ◌∙◌, Bool, true, ℕ, ◌≤◌, arith, List, [], ◌∷◌, Option, some, Text, text_eq,
  ℤ, ok, bind_ok, ok-injective, find_first, update_where, Bool-cases, inl, inr, both-true, ◌&&◌,
  true-ne-false, option_text_eq,
}
use lapangan_go.Outbox.Types.{
  Command, CommandType, CommandState, pending, leased, retryable, succeeded, terminal,
  lease_conflict,
}
use lapangan_go.Outbox.Lease.{
  Outbox, holds_lease, set_leased, is_due, is_due_in, is_candidate, Aggregate, duration_of,
  leased_row, is_leased_state, expires_after,
}
use lapangan_go.Outbox.Operations.{finish_lease, lease_command}
use lapangan_go.Outbox.Trace.{is_final}

-- What a command may become: it keeps its identity and its request, it counts claims upwards, and
-- it stays as it is once it has succeeded or ended.
pub record IsLater (c d : Command) : Type 0 where
  pub same_id : c.id ≡ d.id
  pub same_request : c.request_hash ≡ d.request_hash
  pub counts : c.attempt_count ≤ d.attempt_count
  pub final : is_final c.state ≡ true → c ≡ d

abbrev pub AreLater : List Command → List Command → Type 0
AreLater [] [] = Unit {0}
AreLater (c ∷ cs) (d ∷ ds) = IsLater c d × AreLater cs ds
AreLater _ _ = ⊥

IsLater-refl : (c : Command) → IsLater c c
IsLater-refl c = record {
  same_id = refl;
  same_request = refl;
  counts = omega arith;
  final = λ _. refl;
}

IsLater-trans : (c d e : Command) → IsLater c d → IsLater d e → IsLater c e
IsLater-trans c d e h k = record {
  same_id = h.same_id ∙ k.same_id;
  same_request = h.same_request ∙ k.same_request;
  counts = omega (arith, h.counts, k.counts);
  final = λ f. h.final f ∙ k.final (subst (λ x. is_final x.state ≡ true) (h.final f) f);
}

pub AreLater-refl : (cs : List Command) → AreLater cs cs
AreLater-refl [] = tt
AreLater-refl (c ∷ cs) = (IsLater-refl c, AreLater-refl cs)

pub AreLater-trans : (cs ds es : List Command) → AreLater cs ds → AreLater ds es → AreLater cs es
AreLater-trans [] [] [] h k = tt
AreLater-trans (c ∷ cs) (d ∷ ds) (e ∷ es) h k =
    (IsLater-trans c d e h.0 k.0, AreLater-trans cs ds es h.1 k.1)
AreLater-trans [] [] (e ∷ es) h k = elim k [ ]
AreLater-trans [] (d ∷ ds) es h k = elim h [ ]
AreLater-trans (c ∷ cs) [] es h k = elim h [ ]
AreLater-trans (c ∷ cs) (d ∷ ds) [] h k = elim k [ ]

AreLater-update_where :
    (p : Command → Bool) (f : Command → Command) (cs : List Command)
    → ((c : Command) → p c ≡ true → IsLater c (f c))
    → AreLater cs (update_where p f cs)
AreLater-update_where p f [] later = tt
AreLater-update_where p f (c ∷ cs) later = elim (Bool-cases (p c)) [
  | inl e ↦ (rw e (later c e), AreLater-update_where p f cs later)
  | inr e ↦ (rw e (IsLater-refl c), AreLater-update_where p f cs later)
]

-- The rows that an end of a lease changes are leased, so they are not final.
leased-not_final : (s : CommandState) → is_leased_state s ≡ true → is_final s ≡ true → ⊥
leased-not_final leased h k = true-ne-false (sym k)
leased-not_final pending h k = true-ne-false (sym h)
leased-not_final retryable h k = true-ne-false (sym h)
leased-not_final succeeded h k = true-ne-false (sym h)
leased-not_final terminal h k = true-ne-false (sym h)

holds_lease-leased :
    (id owner token : Text) (now : ℕ) (c : Command)
    → holds_lease id owner token now c ≡ true
    → is_leased_state c.state ≡ true
unfolding holds_lease
holds_lease-leased id owner token now c h =
    let (a, _) =
      both-true
        (text_eq id c.id
          && is_leased_state c.state
          && option_text_eq c.lease_owner (some owner)
          && option_text_eq c.lease_token (some token))
        (expires_after now c.lease_expires_at) h in
    let (b, _) =
      both-true
        (text_eq id c.id && is_leased_state c.state && option_text_eq c.lease_owner (some owner))
        (option_text_eq c.lease_token (some token)) a in
    let (d, _) =
      both-true (text_eq id c.id && is_leased_state c.state)
        (option_text_eq c.lease_owner (some owner)) b in
    (both-true (text_eq id c.id) (is_leased_state c.state) d).1

due-not_final :
    (s : CommandState) (available now : ℕ) (expires : Option ℕ)
    → is_due_in s available expires now ≡ true
    → is_final s ≡ true
    → ⊥
due-not_final leased available now expires h k = true-ne-false (sym k)
due-not_final pending available now expires h k = true-ne-false (sym k)
due-not_final retryable available now expires h k = true-ne-false (sym k)
due-not_final succeeded available now expires h k = true-ne-false (sym h)
due-not_final terminal available now expires h k = true-ne-false (sym h)

-- The columns that a SET clause of an end of a lease never touches.
pub record IsEnd (set : ℕ → Command → Command) : Type 0 where
  pub id_kept : (now : ℕ) (c : Command) → c.id ≡ (set now c).id
  pub request_kept : (now : ℕ) (c : Command) → c.request_hash ≡ (set now c).request_hash
  pub count_kept : (now : ℕ) (c : Command) → c.attempt_count ≡ (set now c).attempt_count

pub finish_lease-later :
    (id owner token : Text) (set : ℕ → Command → Command) (st : Outbox) (r : Command × Outbox)
    → IsEnd set
    → finish_lease id owner token set st ≡ ok r
    → AreLater st.commands r.1.commands
unfolding finish_lease
finish_lease-later id owner token set st r end h =
    bind_ok (leased_row lease_conflict (find_first (holds_lease id owner token st.now) st.commands))
      h
      λ _ _ k.
        subst (λ (s : Command × Outbox). AreLater st.commands s.1.commands) (ok-injective k)
          (AreLater-update_where (holds_lease id owner token st.now) (set st.now) st.commands later)
  where
    later : (c : Command) → holds_lease id owner token st.now c ≡ true → IsLater c (set st.now c)
    later c e = record {
      same_id = end.id_kept st.now c;
      same_request = end.request_kept st.now c;
      counts = omega (arith, end.count_kept st.now c);
      final =
          λ f. absurd (leased-not_final c.state (holds_lease-leased id owner token st.now c e) f);
    }

pub lease_command-later :
    (joined : Command → Option Aggregate) (allowed : CommandType → Bool) (id owner token : Text)
    (d : ℤ) (st : Outbox) (r : Option Command × Outbox)
    → lease_command joined allowed id owner token d st ≡ ok r
    → AreLater st.commands r.1.commands
unfolding lease_command set_leased is_due
lease_command-later joined allowed id owner token d st r h =
    subst (λ (s : Option Command × Outbox). AreLater st.commands s.1.commands) (ok-injective h)
      (AreLater-update_where (λ c. is_candidate id joined allowed st.now c && is_due st.now c)
        (set_leased owner token (duration_of d) st.now) st.commands later)
  where
    later :
        (c : Command)
        → (is_candidate id joined allowed st.now c && is_due st.now c) ≡ true
        → IsLater c (set_leased owner token (duration_of d) st.now c)
    later c e = record {
      same_id = refl;
      same_request = refl;
      counts = omega arith;
      final = λ f. absurd (
          due-not_final c.state c.available_at st.now c.lease_expires_at
            (both-true (is_candidate id joined allowed st.now c) (is_due st.now c) e).1 f);
    }
