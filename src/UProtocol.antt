-- ===== src/UProtocol.antt =====
-- The data of the crate `up_rust` that the transport reads and builds, and the functions of that
-- crate, which are not part of the repository, as the interface `UpRust`.
pub mod Status
use up_transport_vsomeip_rus.Prelude.{
  ℕ, String, ◌≡◌, ◌↔◌, Bool, true, ◌&&◌, Option, none, some, List, arith, Eq, ◌==◌, ==_iff, nat_eq,
  string_eq,
}
use Status.{UCode}

-- A 128-bit identifier.
abbrev pub Uuid : Type 0
Uuid = ℕ

-- `uri.authority_name` and the three numbers, each a `u32`.
pub record UUri : Type 0 where
  pub authority_name : String
  pub ue_id : ℕ
  pub ue_version_major : ℕ
  pub resource_id : ℕ

-- `#[derive(PartialEq)]`
abbrev pub uuri_beq : UUri → UUri → Bool
uuri_beq a b =
    a.authority_name == b.authority_name
    && (a.ue_id == b.ue_id
        && (a.ue_version_major == b.ue_version_major && a.resource_id == b.resource_id))

pub uuri_beq_iff : (a b : UUri) → (uuri_beq a b ≡ true) ↔ (a ≡ b)
uuri_beq_iff a b = ground (arith, ==_iff a.authority_name b.authority_name)

instance abbrev pub uuri_eq : Eq UUri
uuri_eq = record { beq = uuri_beq; beq_iff = uuri_beq_iff }

pub data UMessageType : Type 0 where
  unspecified publish request response notification : UMessageType

-- `EnumOrUnknown<E>`: `none` is a number that names no value of the enumeration.
abbrev pub enum_value_or {ℓ} : {E : Type ℓ} → Option E → E → E
enum_value_or none d = d
enum_value_or (some e) d = e

pub record UAttributes : Type 0 where
  pub type_ : Option UMessageType
  pub id : Option Uuid
  pub reqid : Option Uuid
  pub source : Option UUri
  pub sink : Option UUri
  pub commstatus : Option (Option UCode)

pub record UMessage : Type 0 where
  pub attributes : Option UAttributes
  pub payload : Option (List ℕ)

-- A `MessageField` that is not set is read as the default instance of its message.
abbrev default_attributes : UAttributes
default_attributes = record {
  type_ = some unspecified;
  id = none;
  reqid = none;
  source = none;
  sink = none;
  commstatus = none;
}

-- `umsg.attributes.…`
abbrev pub attributes_of : UMessage → UAttributes
attributes_of m = elim m.attributes [ none ↦ default_attributes | some a ↦ a ]

-- What the transport calls in `up_rust`. `none` is the error of a `Result`; its text is not
-- modelled. A builder draws the identifier of the message, which is its first argument here.
pub record UpRust : Type 0 where
  pub has_wildcard_authority : UUri → Bool
  pub has_wildcard_entity_type : UUri → Bool
  pub has_wildcard_entity_instance : UUri → Bool
  pub has_wildcard_version : UUri → Bool
  pub has_wildcard_resource_id : UUri → Bool
  -- `UUri::any()`
  pub any : UUri
  pub try_from_parts : String → ℕ → ℕ → ℕ → Option UUri
  pub verify_rpc_response : UUri → Bool
  -- `UAttributesValidators::get_validator_for_attributes(a).validate(a)`
  pub validate : UAttributes → Bool
  pub build_publish : Uuid → UUri → List ℕ → Option UMessage
  -- `UMessageBuilder::request(sink, source, ttl)`
  pub build_request : Uuid → UUri → UUri → ℕ → List ℕ → Option UMessage
  -- `UMessageBuilder::response(sink, reqid, source).with_comm_status(code)`
  pub build_response : Uuid → UUri → Uuid → UUri → UCode → List ℕ → Option UMessage
