-- ===== src/Totp/Examples.antt =====
-- Tests of modules/totp, and its theorems at concrete inputs.
use nise_and_go.Common.{[], ◌∷◌, ℕ, ◌≤◌, ◌≡◌, refl, ◌++◌, some, none, arith, drop, replicate}
use nise_and_go.Common.Int.{pos, negsuc}
use nise_and_go.Common.Text.{Bytes, codes}
use nise_and_go.Totp.Code.{step, code_at, normalize_code, verify, secret_from_bytes}
use nise_and_go.Totp.Recovery.{RecoveryCode, new_recovery_code, parse_recovery_code}
use nise_and_go.Totp.Transcription.{parse_recovery_code-new_recovery_code}
use nise_and_go.Totp.Window.{verify_lem}

-- A tag that starts with the low half of the message and selects its first four bytes.
abbrev echo : Bytes → Bytes → Bytes
echo key message = drop 4 message ++ replicate 16 0

abbrev key : Bytes
key = codes "12345678901234567890"

key_adopted : secret_from_bytes key ≡ some key
unfolding secret_from_bytes
key_adopted = refl

third_code : code_at echo key (pos 3) ≡ some (codes "000003")
unfolding code_at
third_code = refl

before_epoch : code_at echo key (negsuc 0) ≡ none
unfolding code_at
before_epoch = refl

typed : normalize_code (codes " 000 003 ") ≡ some (codes "000003")
unfolding normalize_code
typed = refl

accepted : verify echo key (codes " 000 003 ") (pos 125) (pos 1) ≡ some (pos 3)
unfolding verify
accepted = refl

fourth : step (pos 125) ≡ pos 4
unfolding step
fourth = refl

verify_lem_example :
    (t : ℕ) × (verify echo key (codes " 000 003 ") (pos 125) (pos 1) ≡ some (pos t)) × (3 ≤ t)
verify_lem_example =
    (verify_lem echo key (codes " 000 003 ") (codes "000003") (pos 125) 4 1 fourth (omega arith)
        (omega arith) (omega arith) typed).1
      3 (omega arith) (omega arith) third_code

abbrev random : Bytes
random = 0 ∷ 1 ∷ 10 ∷ 31 ∷ 255 ∷ 17 ∷ 18 ∷ 32 ∷ 64 ∷ 9 ∷ []

abbrev shown : RecoveryCode
shown = record { value = codes "01AZZ-HJ009" }

shown_made : new_recovery_code (some random) ≡ some shown
unfolding new_recovery_code
shown_made = refl

parse_recovery_code-new_recovery_code_example : parse_recovery_code shown.value ≡ some shown
parse_recovery_code-new_recovery_code_example =
    parse_recovery_code-new_recovery_code random {code = shown} refl shown_made

misread :
    parse_recovery_code (codes " o1azz hjoo9 ") ≡ some (record { value = codes "01AZZ-HJ009" })
unfolding parse_recovery_code
misread = refl
