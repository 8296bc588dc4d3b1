-- ===== src/Conversions/Codes.antt =====
-- The two tables between uProtocol's status codes and SOME/IP's return codes.
use up_transport_vsomeip_rus.Prelude.{◌≡◌, ◌↔◌, refl}
use up_transport_vsomeip_rus.UProtocol.Status.{
  UCode, ok_code, unknown, invalid_argument, deadline_exceeded, not_found, failed_precondition,
  internal, unavailable, data_loss,
}
use up_transport_vsomeip_rus.Vsomeip.{
  ReturnCode, e_ok, e_not_ok, e_unknown_service, e_unknown_method, e_not_ready, e_not_reachable,
  e_timeout, e_wrong_protocol_version, e_wrong_interface_version, e_malformed_message,
  e_wrong_message_type,
}

unfoldable pub ucode_to_vsomeip_err_code : UCode → ReturnCode
ucode_to_vsomeip_err_code ok_code = e_ok
ucode_to_vsomeip_err_code invalid_argument = e_wrong_message_type
ucode_to_vsomeip_err_code deadline_exceeded = e_timeout
ucode_to_vsomeip_err_code not_found = e_unknown_service
ucode_to_vsomeip_err_code unavailable = e_unknown_service
ucode_to_vsomeip_err_code data_loss = e_malformed_message
ucode_to_vsomeip_err_code internal = e_not_reachable
ucode_to_vsomeip_err_code unknown = e_not_ok
ucode_to_vsomeip_err_code failed_precondition = e_wrong_protocol_version
ucode_to_vsomeip_err_code _ = e_not_ok

unfoldable pub vsomeip_err_code_to_ucode : ReturnCode → UCode
vsomeip_err_code_to_ucode e_ok = ok_code
vsomeip_err_code_to_ucode e_wrong_message_type = invalid_argument
vsomeip_err_code_to_ucode e_unknown_method = invalid_argument
vsomeip_err_code_to_ucode e_timeout = deadline_exceeded
vsomeip_err_code_to_ucode e_unknown_service = not_found
vsomeip_err_code_to_ucode e_not_ready = unavailable
vsomeip_err_code_to_ucode e_malformed_message = data_loss
vsomeip_err_code_to_ucode e_not_reachable = internal
vsomeip_err_code_to_ucode e_not_ok = unknown
vsomeip_err_code_to_ucode e_wrong_protocol_version = failed_precondition
vsomeip_err_code_to_ucode e_wrong_interface_version = failed_precondition
vsomeip_err_code_to_ucode _ = unknown

-- The codes that have a return code of their own.
abbrev pub IsCarried : UCode → Type 0
IsCarried ok_code = Unit
IsCarried invalid_argument = Unit
IsCarried deadline_exceeded = Unit
IsCarried not_found = Unit
IsCarried data_loss = Unit
IsCarried internal = Unit
IsCarried unknown = Unit
IsCarried failed_precondition = Unit
IsCarried _ = ⊥

abbrev pub there_and_back : UCode → UCode
there_and_back c = vsomeip_err_code_to_ucode (ucode_to_vsomeip_err_code c)

kept_iff :
    (c : UCode)
    → ((there_and_back c ≡ c) ↔ IsCarried c)
      × (there_and_back (there_and_back c) ≡ there_and_back c)
unfolding ucode_to_vsomeip_err_code vsomeip_err_code_to_ucode
kept_iff ok_code = ((λ h. tt, λ h. refl), refl)
kept_iff invalid_argument = ((λ h. tt, λ h. refl), refl)
kept_iff deadline_exceeded = ((λ h. tt, λ h. refl), refl)
kept_iff not_found = ((λ h. tt, λ h. refl), refl)
kept_iff data_loss = ((λ h. tt, λ h. refl), refl)
kept_iff internal = ((λ h. tt, λ h. refl), refl)
kept_iff unknown = ((λ h. tt, λ h. refl), refl)
kept_iff failed_precondition = ((λ h. tt, λ h. refl), refl)
kept_iff _ = ((λ h. cc, λ h. absurd h), refl)

ok_only : (c : UCode) → ucode_to_vsomeip_err_code c ≡ e_ok → c ≡ ok_code
unfolding ucode_to_vsomeip_err_code
ok_only ok_code h = refl
ok_only _ h = cc

only_ok : (r : ReturnCode) → vsomeip_err_code_to_ucode r ≡ ok_code → r ≡ e_ok
unfolding vsomeip_err_code_to_ucode
only_ok e_ok h = refl
only_ok _ h = cc

-- neither table turns an error into success, or success into an error
success_is_kept :
    (c : UCode) (r : ReturnCode)
    → ((ucode_to_vsomeip_err_code c ≡ e_ok) ↔ (c ≡ ok_code))
      × ((vsomeip_err_code_to_ucode r ≡ ok_code) ↔ (r ≡ e_ok))
unfolding ucode_to_vsomeip_err_code vsomeip_err_code_to_ucode
success_is_kept c r = ((ok_only c, λ e. rw e), (only_ok r, λ e. rw e))

-- A status code survives the way to SOME/IP and back exactly if it is one of the eight carried
-- codes; a second way there and back never changes it again; and neither way turns an error into
-- success, or success into an error.
pub there_and_back_iff :
    (c : UCode) (r : ReturnCode)
    → ((there_and_back c ≡ c) ↔ IsCarried c)
      × (there_and_back (there_and_back c) ≡ there_and_back c)
      × ((ucode_to_vsomeip_err_code c ≡ e_ok) ↔ (c ≡ ok_code))
      × ((vsomeip_err_code_to_ucode r ≡ ok_code) ↔ (r ≡ e_ok))
there_and_back_iff c r =
    let (carried, again) = kept_iff c in
    let (there, back) = success_is_kept c r in (carried, again, there, back)
