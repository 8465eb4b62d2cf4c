-- ===== src/Aup/Tests.antt =====
-- What the theorem on acceptances says of one account's first acceptance.
use vivijure_control_plane.Prelude.{◌≡◌, refl, false, ◌&&◌, ◌||◌, none, some, [], ◌∷◌, ok, ◌==◌}
use vivijure_control_plane.Prelude.Text.{Text, codes, text_eq, text_beq, is_empty}
use vivijure_control_plane.Aup.{
  AupDb, Consent, accept_aup, acceptance_row, recorded, has_accepted_aup,
}
use vivijure_control_plane.Aup.Gate.{accept_aup_recorded}

abbrev consent : Consent
consent = record { connecting_ip = none; user_agent = none }

abbrev before_consent : AupDb
before_consent = record { accounts = codes "a1" ∷ []; acceptances = [] }

abbrev after_consent : AupDb
after_consent = record before_consent {
  acceptances = acceptance_row (λ t. t) (codes "a1") (codes "v2") (codes "ff") consent 7 ∷ [];
}

consented :
    accept_aup
      (λ t. t)
      before_consent
      (codes "a1")
      (codes "v2")
      (codes "v2")
      consent
      (some (codes "ff"))
      7
    ≡ ok (after_consent, recorded)
unfolding accept_aup text_beq
consented = refl

accept_aup_recorded_example :
    (codes "v2" ≡ codes "v2")
    × ((d : Text) × (some (codes "ff") ≡ some d) × (is_empty d ≡ false))
    × (has_accepted_aup after_consent (codes "a1") (codes "v3") ≡ (
        has_accepted_aup before_consent (codes "a1") (codes "v3")
        || (codes "a1" == codes "a1" && codes "v2" == codes "v3")))
accept_aup_recorded_example =
    accept_aup_recorded (λ t. t) before_consent (codes "a1") (codes "v2") (codes "v2") consent
      (some (codes "ff")) 7 after_consent (codes "a1") (codes "v3") consented
