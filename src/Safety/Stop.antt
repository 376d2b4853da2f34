-- ===== src/Safety/Stop.antt =====
-- src/secopent/application/emergency_stop.py: what the kill switch guarantees.
use sec_opent.Prelude.{
  ℕ, Bool, true, false, Option, none, some, String, List, [], ◌∷◌, elem, elem-append, ||-left,
  ||-right, string_eq, ◌≡◌, ◌≢◌, refl, arith,
}
use text.Mathlib.TextEquality.{eq_iff}
use sec_opent.Prelude.Dict.{Dict, lookup, lookup-insert}
use sec_opent.Prelude.Raises.{Error, Result}
use sec_opent.Safety.{
  record_issued, record_used, is_revoked, pending, only_used, revoke_unused, StopEntry, Switch,
  permits_allowed, trigger,
}

elem-pending : (n : String) (d : Dict Bool) → lookup n d ≡ some false → elem n (pending d) ≡ true
elem-pending n [] h = absurd (cc)
elem-pending n ((k, true) ∷ d) h = ground (arith, elem-pending n d, eq_iff k n)
elem-pending n ((k, false) ∷ d) h = ground (arith, elem-pending n d, eq_iff k n, eq_iff n k)

lookup-only_used : (n : String) (d : Dict Bool) → lookup n (only_used d) ≢ some false
lookup-only_used n [] h = absurd (cc)
lookup-only_used n ((k, true) ∷ d) h = ground (arith, lookup-only_used n d)
lookup-only_used n ((k, false) ∷ d) h = lookup-only_used n d h

only_used-kept :
    (n : String) (d : Dict Bool) → lookup n d ≡ some true → lookup n (only_used d) ≡ some true
only_used-kept n [] h = cc
only_used-kept n ((k, true) ∷ d) h = ground (arith, only_used-kept n d)
only_used-kept n ((k, false) ∷ d) h = ground (arith, only_used-kept n d)

only_used-none : (n : String) (d : Dict Bool) → lookup n d ≡ none → lookup n (only_used d) ≡ none
only_used-none n [] h = refl
only_used-none n ((k, true) ∷ d) h = ground (arith, only_used-none n d)
only_used-none n ((k, false) ∷ d) h = ground (arith, only_used-none n d)

-- What a trigger leaves, whether or not the audit recorder raises.
trigger-state :
    (terminate : Result ℕ) (refuses : StopEntry → Option Error) (actor reason : String) (s : Switch)
    → ((trigger terminate refuses actor reason s).1.triggered ≡ true)
      × ((trigger terminate refuses actor reason s).1.revoker ≡ (revoke_unused s.revoker).1)
unfolding trigger
trigger-state terminate refuses actor reason s = (ground arith, ground arith)

-- Even if no container can be terminated and the audit recorder raises, a triggered stop allows no new
-- permit, revokes every nonce that was issued and not used, leaves no unused one among the issued, and
-- keeps the used ones.
pub trigger-revokes :
    (terminate : Result ℕ) (refuses : StopEntry → Option Error) (actor reason : String) (s : Switch)
    → let after = (trigger terminate refuses actor reason s).1 in
      (permits_allowed after ≡ false)
      × ((n : String) → lookup n s.revoker.issued ≡ some false → is_revoked n after.revoker ≡ true)
      × ((n : String) → lookup n after.revoker.issued ≢ some false)
      × ((n : String)
          → lookup n s.revoker.issued ≡ some true
          → lookup n after.revoker.issued ≡ some true)
unfolding revoke_unused
trigger-revokes terminate refuses actor reason s =
    let (t, r) = trigger-state terminate refuses actor reason s in
    (
      rw t refl,
      λ n h.
          rw (r, elem-append n (pending s.revoker.issued) s.revoker.revoked)
            (||-left _ _ (elem-pending n s.revoker.issued h)),
      λ n. rw r (lookup-only_used n s.revoker.issued),
      λ n h. rw r (only_used-kept n s.revoker.issued h),
    )

-- The calls on a switch and its revoker.
pub data StopCall : Type 0 where
  issue_call : String → Bool → StopCall
  use_call : String → StopCall
  trigger_call : Result ℕ → (StopEntry → Option Error) → String → String → StopCall

abbrev pub press : StopCall → Switch → Switch
press (issue_call n used) s = record s { revoker = record_issued n used s.revoker }
press (use_call n) s = record s { revoker = record_used n s.revoker }
press (trigger_call terminate refuses actor reason) s = (trigger terminate refuses actor reason s).1

abbrev pub press_all : List StopCall → Switch → Switch
press_all [] s = s
press_all (c ∷ cs) s = press_all cs (press c s)

-- The stop was triggered, and the nonce is revoked and no longer issued.
abbrev pub Dead : String → Switch → Type 0
Dead n s =
    (permits_allowed s ≡ false)
    × (is_revoked n s.revoker ≡ true)
    × (lookup n s.revoker.issued ≡ none)

press-Dead : (n : String) (c : StopCall) (s : Switch) → Dead n s → Dead n (press c s)
unfolding record_issued record_used revoke_unused
press-Dead n (issue_call k used) s (t, r, e) =
    (t, ground arith, ground (arith, lookup-insert k n used s.revoker.issued, eq_iff k n))
press-Dead n (use_call k) s (t, r, e) =
    (t, ground arith, ground (arith, lookup-insert k n true s.revoker.issued, eq_iff k n))
press-Dead n (trigger_call terminate refuses actor reason) s (t, r, e) =
    let (u, v) = trigger-state terminate refuses actor reason s in
    (
      rw u refl,
      rw (v, elem-append n (pending s.revoker.issued) s.revoker.revoked) (||-right _ _ r),
      rw v (only_used-none n s.revoker.issued e),
    )

-- A nonce that a stop revoked can never be issued again: whatever is issued, used or triggered later,
-- it stays revoked and not issued, and no new permit is allowed.
pub revoked_stays :
    (n : String) (cs : List StopCall) (s : Switch) → Dead n s → Dead n (press_all cs s)
revoked_stays n [] s h = h
revoked_stays n (c ∷ cs) s h = revoked_stays n cs (press c s) (press-Dead n c s h)
