-- ===== src/Utils.antt =====
-- up-transport-vsomeip/src/utils.rs: the parts of 32-bit numbers. A `u16` or `u8` keeps its
-- wrap-around written out; a shift is a division, a mask by a power of two a remainder.
mod Bits
pub mod Parts
use Prim.Native.Nat.{bit_or}
use up_transport_vsomeip_rus.Prelude.{ℕ, ◌*◌, ◌/◌, ◌%◌, ◌^◌, String}
use up_transport_vsomeip_rus.UProtocol.{UUri}

-- `UUri { authority_name, ue_id, ue_version_major: 0xFF, resource_id: 0xFFFF, .. }`
unfoldable pub any_uuri_fixed_authority_id : String → ℕ → UUri
any_uuri_fixed_authority_id authority_name ue_id = record {
  authority_name = authority_name;
  ue_id = ue_id;
  ue_version_major = 0xFF;
  resource_id = 0xFFFF;
}

unfoldable pub split_u32_to_u16 : ℕ → ℕ × ℕ
split_u32_to_u16 value = (value / 2 ^ 16 % 2 ^ 16, value % 2 ^ 16 % 2 ^ 16)

unfoldable pub split_u32_to_u8 : ℕ → ℕ × ℕ × ℕ × ℕ
split_u32_to_u8 value = (
  value / 2 ^ 24 % 2 ^ 8,
  value / 2 ^ 16 % 2 ^ 8 % 2 ^ 8,
  value / 2 ^ 8 % 2 ^ 8 % 2 ^ 8,
  value % 2 ^ 8 % 2 ^ 8,
)

-- `((client_id as u32) << 16) | (session_id as u32)`
unfoldable pub create_request_id : ℕ → ℕ → ℕ
create_request_id client_id session_id = bit_or (client_id * 2 ^ 16 % 2 ^ 32) session_id
