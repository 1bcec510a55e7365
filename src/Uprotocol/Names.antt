-- ===== src/Uprotocol/Names.antt =====
-- threadx-app/cross/app/src/uprotocol_v1.rs: the names of the enums round trip.
use Prim.Native.String.{String}
use threadx_rust.Uprotocol.Code.{u_code_arms, UCode, u_code_from_name, u_code_name}
use threadx_rust.Uprotocol.Formats.{
  checksum_type_arms, u_payload_format_arms, u_message_type_arms, u_priority_arms, ChecksumType,
  UPayloadFormat, UPriority, UMessageType, u_message_type_from_name, checksum_type_from_name,
  u_payload_format_from_name, u_priority_from_name, u_message_type_name, u_payload_format_name,
  u_priority_name, checksum_type_name,
}
use threadx_rust.Uprotocol.Match.{arms_agree, match_name, name-match_name}
use threadx_rust.Base.{◌↔◌, refl, some, ◌≡◌}

u_code_from_name-name : (c : UCode) → u_code_from_name (u_code_name c) ≡ some c
unfolding u_code_name u_code_from_name match_name
u_code_from_name-name UCode.ok = refl
u_code_from_name-name _ = refl

u_code_name-from_name : (s : String) {c : UCode} → u_code_from_name s ≡ some c → u_code_name c ≡ s
unfolding u_code_name u_code_from_name arms_agree
u_code_name-from_name s h = name-match_name u_code_name s u_code_arms refl h

u_message_type_from_name-name :
    (c : UMessageType) → u_message_type_from_name (u_message_type_name c) ≡ some c
unfolding u_message_type_name u_message_type_from_name match_name
u_message_type_from_name-name UMessageType.umessage_type_unspecified = refl
u_message_type_from_name-name _ = refl

u_message_type_name-from_name :
    (s : String) {c : UMessageType}
    → u_message_type_from_name s ≡ some c
    → u_message_type_name c ≡ s
unfolding u_message_type_name u_message_type_from_name arms_agree
u_message_type_name-from_name s h = name-match_name u_message_type_name s u_message_type_arms refl h

u_priority_from_name-name : (c : UPriority) → u_priority_from_name (u_priority_name c) ≡ some c
unfolding u_priority_name u_priority_from_name match_name
u_priority_from_name-name UPriority.upriority_unspecified = refl
u_priority_from_name-name _ = refl

u_priority_name-from_name :
    (s : String) {c : UPriority} → u_priority_from_name s ≡ some c → u_priority_name c ≡ s
unfolding u_priority_name u_priority_from_name arms_agree
u_priority_name-from_name s h = name-match_name u_priority_name s u_priority_arms refl h

u_payload_format_from_name-name :
    (c : UPayloadFormat) → u_payload_format_from_name (u_payload_format_name c) ≡ some c
unfolding u_payload_format_name u_payload_format_from_name match_name
u_payload_format_from_name-name UPayloadFormat.upayload_format_unspecified = refl
u_payload_format_from_name-name _ = refl

u_payload_format_name-from_name :
    (s : String) {c : UPayloadFormat}
    → u_payload_format_from_name s ≡ some c
    → u_payload_format_name c ≡ s
unfolding u_payload_format_name u_payload_format_from_name arms_agree
u_payload_format_name-from_name s h =
    name-match_name u_payload_format_name s u_payload_format_arms refl h

checksum_type_from_name-name :
    (c : ChecksumType) → checksum_type_from_name (checksum_type_name c) ≡ some c
unfolding checksum_type_name checksum_type_from_name match_name
checksum_type_from_name-name ChecksumType.unspecified = refl
checksum_type_from_name-name _ = refl

checksum_type_name-from_name :
    (s : String) {c : ChecksumType} → checksum_type_from_name s ≡ some c → checksum_type_name c ≡ s
unfolding checksum_type_name checksum_type_from_name arms_agree
checksum_type_name-from_name s h = name-match_name checksum_type_name s checksum_type_arms refl h

-- For each of the five enums, `from_str_name` accepts a text exactly when it is the name of a
-- variant, and gives that variant: `as_str_name` and `from_str_name` are inverse to each other.
pub from_name_iff :
    (s : String)
    → ((c : UCode) → (u_code_from_name s ≡ some c) ↔ (u_code_name c ≡ s))
      × ((c : UMessageType) → (u_message_type_from_name s ≡ some c) ↔ (u_message_type_name c ≡ s))
      × ((c : UPriority) → (u_priority_from_name s ≡ some c) ↔ (u_priority_name c ≡ s))
      × ((c : UPayloadFormat)
          → (u_payload_format_from_name s ≡ some c) ↔ (u_payload_format_name c ≡ s))
      × ((c : ChecksumType) → (checksum_type_from_name s ≡ some c) ↔ (checksum_type_name c ≡ s))
from_name_iff s = (
  λ c. (u_code_name-from_name s, λ p. rw (← p) (u_code_from_name-name c)),
  λ c. (u_message_type_name-from_name s, λ p. rw (← p) (u_message_type_from_name-name c)),
  λ c. (u_priority_name-from_name s, λ p. rw (← p) (u_priority_from_name-name c)),
  λ c. (u_payload_format_name-from_name s, λ p. rw (← p) (u_payload_format_from_name-name c)),
  λ c. (checksum_type_name-from_name s, λ p. rw (← p) (checksum_type_from_name-name c)),
)
