-- ===== src/Config/Bounds.antt =====
-- What is read of a configuration file is within bounds.
use up_transport_vsomeip_rus.Prelude.{
  ℕ, ◌^◌, ◌<◌, ◌≡◌, some, List, [], ◌∷◌, String, Every, inl, inr, Option-cases, ◌⊎◌, arith,
}
use up_transport_vsomeip_rus.UProtocol.Status.{ok, fail, invalid_argument}
use up_transport_vsomeip_rus.Storage.{ApplicationConfig}
use up_transport_vsomeip_rus.Config.{
  ServiceConfig, Files, deserialize_hex_u16, application_from_value, service_from_value,
  services_from_value, extract_application, extract_services,
}
use up_transport_vsomeip_rus.Config.Hex.{hex_u16, codes}
use up_transport_vsomeip_rus.Config.Hex.Value.{from_codes_bound}

-- a service of 16 bits, of an instance of 16 bits
abbrev pub IsBounded : ServiceConfig → Type 0
IsBounded config = (config.service < 2 ^ 16) × (config.instance_id < 2 ^ 16)

module _ {Json : Type 0} (files : Files Json) where
  deserialize_bound :
      (json : Json) (key : String) (n : ℕ)
      → deserialize_hex_u16 files json key ≡ some n
      → n < 2 ^ 16
  unfolding deserialize_hex_u16 hex_u16
  deserialize_bound json key n e = elim (Option-cases (files.get_field json key)) [
    | inl f ↦ absurd (ground arith)
    | inr (v, f) ↦ elim (Option-cases (files.as_string v)) [
      | inl g ↦ absurd (ground arith)
      | inr (s, g) ↦ from_codes_bound (codes s) n (ground arith)
    ]
  ]

  service_bound :
      (json : Json) (config : ServiceConfig)
      → service_from_value files json ≡ some config
      → IsBounded config
  unfolding service_from_value
  service_bound json config e = elim (Option-cases (deserialize_hex_u16 files json "service")) [
    | inl f ↦ absurd (ground arith)
    | inr (s, f) ↦ elim (Option-cases (deserialize_hex_u16 files json "instance")) [
      | inl g ↦ absurd (ground arith)
      | inr (i, g) ↦
          let service_fits = deserialize_bound json "service" s f in
          let instance_fits = deserialize_bound json "instance" i g in (ground arith, ground arith)
    ]
  ]

  services_bound :
      (values : List Json) (configs : List ServiceConfig)
      → services_from_value files values ≡ some configs
      → Every IsBounded configs
  unfolding services_from_value
  services_bound [] [] e = tt
  services_bound [] (c ∷ configs) e = absurd (ground arith)
  services_bound (json ∷ values) configs e = elim (Option-cases (service_from_value files json)) [
    | inl f ↦ absurd (ground arith)
    | inr (x, f) ↦ elim (Option-cases (services_from_value files values)) [
      | inl g ↦ absurd (ground arith)
      | inr (xs, g) ↦
          let same : configs ≡ x ∷ xs = ground arith in
          rw (same) (service_bound json x f, services_bound values xs g)
    ]
  ]

  -- a file whose application cannot be read has one error
  pub extracted :
      (path : String)
      → (extract_application files path ≡ fail invalid_argument)
        ⊎ ((config : ApplicationConfig) × (extract_application files path ≡ ok config))
  unfolding extract_application
  extracted path = elim (Option-cases (files.read_json_file path)) [
    | inl f ↦ inl (ground arith)
    | inr (json, f) ↦ elim (Option-cases (files.get_array json "applications")) [
      | inl g ↦ inl (ground arith)
      | inr ([], g) ↦ inl (ground arith)
      | inr (x ∷ xs, g) ↦ elim (Option-cases (application_from_value files x)) [
        | inl h ↦ inl (ground arith)
        | inr (config, h) ↦ inr (config, ground arith)
      ]
    ]
  ]

  -- The services of a configuration file are at least one, and their numbers and instances have 16
  -- bits.
  pub extract_services_bound :
      (path : String) (configs : List ServiceConfig)
      → extract_services files path ≡ ok configs
      → Every IsBounded configs
  unfolding extract_services
  extract_services_bound path configs e = elim (Option-cases (files.read_json_file path)) [
    | inl f ↦ absurd (ground arith)
    | inr (json, f) ↦ elim (Option-cases (files.get_array json "services")) [
      | inl g ↦ absurd (ground arith)
      | inr ([], g) ↦ absurd (ground arith)
      | inr (x ∷ xs, g) ↦ services_bound (x ∷ xs) configs (ground arith)
    ]
  ]
