-- ===== src/Tests/Safeties.antt =====
-- The kill switch and the canary tokens at concrete inputs.
use sec_opent.Prelude.{true, false, ◌≡◌, ◌≢◌, refl, some, none, String, List, [], ◌∷◌}
use sec_opent.Prelude.Dict.{lookup}
use sec_opent.Prelude.Raises.{ok, err, domain}
use sec_opent.Safety.{
  Switch, StopEntry, permits_allowed, is_revoked, trigger, Canaries, verify_echo,
}
use sec_opent.Safety.Stop.{
  StopCall, issue_call, use_call, trigger_call, press_all, Dead, trigger-revokes, revoked_stays,
}
use sec_opent.Safety.Canary.{CanaryCall, generate_call, echo_call}

-- One nonce is used and one is not.
abbrev switch : Switch
switch = record {
  triggered = false;
  revoker = record { issued = ("n1", true) ∷ ("n2", false) ∷ []; revoked = [] };
  audit = [];
}

-- Neither the terminator nor the audit recorder can be reached.
abbrev stopped : Switch
stopped =
    (trigger (err (domain "no docker")) (λ e. some (domain "no audit")) "alice" "breach" switch).1

trigger-revokes_example :
    (permits_allowed stopped ≡ false)
    × ((n : String)
        → lookup n switch.revoker.issued ≡ some false
        → is_revoked n stopped.revoker ≡ true)
    × ((n : String) → lookup n stopped.revoker.issued ≢ some false)
    × ((n : String)
        → lookup n switch.revoker.issued ≡ some true
        → lookup n stopped.revoker.issued ≡ some true)
trigger-revokes_example =
    trigger-revokes (err (domain "no docker")) (λ e. some (domain "no audit")) "alice" "breach"
      switch

abbrev later : List StopCall
later = issue_call "n2" false ∷ use_call "n2" ∷ trigger_call (ok 0) (λ e. none) "bob" "again" ∷ []

revoked_stays_example : Dead "n2" (press_all later stopped)
unfolding trigger sec_opent.Safety.revoke_unused
revoked_stays_example = revoked_stays "n2" later stopped (refl, refl, refl)

abbrev canaries : Canaries
canaries = record { issued = "t1" ∷ []; consumed = [] }

abbrev between : List CanaryCall
between = generate_call ("t1" ∷ "t2" ∷ []) ∷ echo_call "no hit" "t2" ∷ []
