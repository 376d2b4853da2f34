-- ===== src/Safety/Canary.antt =====
-- src/secopent/application/canary.py: a token is verified at most once.
use sec_opent.Prelude.{Bool, true, String, List, [], ◌∷◌, elem, string_eq, ◌≡◌, refl, arith}
use text.Mathlib.TextEquality.{eq_iff}
use sec_opent.Prelude.Raises.{ok, err, token_reused}
use sec_opent.Safety.{Canaries, generate, verify_echo}

-- The calls that change a manager.
pub data CanaryCall : Type 0 where
  generate_call : List String → CanaryCall
  echo_call : String → String → CanaryCall

abbrev pub call : CanaryCall → Canaries → Canaries
call (generate_call drawn) c = (generate drawn c).1
call (echo_call response token) c = (verify_echo response token c).1

abbrev pub call_all : List CanaryCall → Canaries → Canaries
call_all [] c = c
call_all (x ∷ xs) c = call_all xs (call x c)

-- The token was issued and has had its attempt.
abbrev Spent : String → Canaries → Type 0
Spent t c = (elem t c.issued ≡ true) × (elem t c.consumed ≡ true)

call-Spent : (t : String) (x : CanaryCall) (c : Canaries) → Spent t c → Spent t (call x c)
unfolding generate verify_echo
call-Spent t (generate_call drawn) c h = (ground arith, ground arith)
call-Spent t (echo_call response token) c h = (ground arith, ground arith)

call_all-Spent :
    (t : String) (xs : List CanaryCall) (c : Canaries) → Spent t c → Spent t (call_all xs c)
call_all-Spent t [] c h = h
call_all-Spent t (x ∷ xs) c h = call_all-Spent t xs (call x c) (call-Spent t x c h)

verify_echo-Spent :
    (response t : String) (b : Bool) (c : Canaries)
    → (verify_echo response t c).0 ≡ ok b
    → Spent t (verify_echo response t c).1
unfolding verify_echo
verify_echo-Spent response t b c h = (ground arith, ground (arith, eq_iff t t))

-- A token that was verified once, with a hit or without, is refused as used by every later
-- verification, whatever was generated and verified in between.
pub verified_once :
    (response again t : String) (b : Bool) (c : Canaries) (xs : List CanaryCall)
    → (verify_echo response t c).0 ≡ ok b
    → let later = call_all xs (verify_echo response t c).1 in
      verify_echo again t later ≡ (err token_reused, later)
unfolding verify_echo
verified_once response again t b c xs h =
    let s = call_all-Spent t xs _ (verify_echo-Spent response t b c h) in rw (s.0, s.1) refl
