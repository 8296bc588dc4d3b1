-- ===== src/Config.antt =====
-- up-transport-vsomeip/src/vsomeip_config.rs: what is read of a vsomeip configuration file. Files
-- and the crate serde_json are a parameter.
pub mod Hex
pub mod Bounds
use up_transport_vsomeip_rus.Prelude.{ℕ, String, Bool, Option, none, some, List, [], ◌∷◌}
use up_transport_vsomeip_rus.UProtocol.Status.{Result, ok, fail, invalid_argument}
use Hex.{hex_u16}
use up_transport_vsomeip_rus.Storage.{ApplicationConfig}

pub record ServiceConfig : Type 0 where
  pub service : ℕ
  pub instance_id : ℕ

-- A path stands for itself. `none` is an error; its text is not modelled.
pub record Files (Json : Type 0) : Type 0 where
  pub exists : String → Bool
  -- `read_json_file`, whose reading and parsing are the library's
  pub read_json_file : String → Option Json
  -- `value.get(key).and_then(|v| v.as_array())`
  pub get_array : Json → String → Option (List Json)
  -- the value from which the derived deserialization of a record reads the field of a name
  pub get_field : Json → String → Option Json
  -- `String::deserialize`
  pub as_string : Json → Option String

-- `o.ok_or_else(|| UStatus::fail_with_code(UCode::INVALID_ARGUMENT, …))`
abbrev valid : {A : Type 0} → Option A → Result A
valid none = fail invalid_argument
valid (some a) = ok a

-- a step that may fail, and the next
abbrev then_try : {A B : Type 0} → Option A → (A → Option B) → Option B
then_try none f = none
then_try (some a) f = f a

module _ {Json : Type 0} (files : Files Json) where
  -- the text of a field
  abbrev string_field : Json → String → Option String
  string_field json key = then_try (files.get_field json key) files.as_string

  -- a field with `deserialize_with = "deserialize_hex_u16"`
  unfoldable pub deserialize_hex_u16 : Json → String → Option ℕ
  deserialize_hex_u16 json key = then_try (string_field json key) hex_u16

  -- `serde_json::from_value` for the two records
  unfoldable pub application_from_value : Json → Option ApplicationConfig
  application_from_value json =
      then_try (string_field json "name") λ name.
        then_try (deserialize_hex_u16 json "id") λ id. some (record { name = name; id = id })

  unfoldable pub service_from_value : Json → Option ServiceConfig
  service_from_value json = then_try (deserialize_hex_u16 json "service") λ service.
      then_try (deserialize_hex_u16 json "instance")
        λ instance_id. some (record { service = service; instance_id = instance_id })

  -- and for an array of services, of which none may fail
  unfoldable pub services_from_value : List Json → Option (List ServiceConfig)
  services_from_value [] = some []
  services_from_value (json ∷ others) =
      then_try (service_from_value json)
        λ config. then_try (services_from_value others) λ configs. some (config ∷ configs)

  -- the array under a key of a file
  abbrev array_at : String → String → Option (List Json)
  array_at file_path key = elim (files.read_json_file file_path) [
    | none ↦ none
    | some json_data ↦ files.get_array json_data key
  ]

  unfoldable pub extract_application : String → Result ApplicationConfig
  extract_application file_path = elim (array_at file_path "applications") [
    | none ↦ fail invalid_argument
    | some applications ↦ elim applications [
      | [] ↦ fail invalid_argument
      | first ∷ others ↦ valid (application_from_value first)
    ]
  ]

  unfoldable pub extract_services : String → Result (List ServiceConfig)
  extract_services file_path = elim (array_at file_path "services") [
    | none ↦ fail invalid_argument
    | some services ↦ elim services [
      | [] ↦ fail invalid_argument
      | first ∷ others ↦ valid (services_from_value (first ∷ others))
    ]
  ]
