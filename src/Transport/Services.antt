-- ===== src/Transport/Services.antt =====
-- The filters that a point-to-point listener is registered under.
use up_transport_vsomeip_rus.Prelude.{◌^◌, ◌<◌, ◌≡◌, refl, String, List, [], ◌∷◌, Every, arith}
use up_transport_vsomeip_rus.UProtocol.{UUri}
use up_transport_vsomeip_rus.UProtocol.Status.{ok}
use up_transport_vsomeip_rus.Utils.{split_u32_to_u16, any_uuri_fixed_authority_id}
use up_transport_vsomeip_rus.Config.{ServiceConfig, extract_services}
use up_transport_vsomeip_rus.Config.Bounds.{IsBounded, extract_services_bound}
use up_transport_vsomeip_rus.Transport.{Transport, World}
use up_transport_vsomeip_rus.Transport.LocalUri.{get_authority}
use up_transport_vsomeip_rus.Transport.PointToPoint.{service_filter}

module _ {Json M : Type 0} (world : World Json M) (t : Transport M) where
  -- The filter for a service: of this device, with an entity id of 32 bits from which the service
  -- and the instance are got back.
  abbrev pub IsFilterOf : ServiceConfig → Type 0
  IsFilterOf config =
      (uri : UUri) × ((service_filter world config t).0 ≡ ok uri)
      × (uri.authority_name ≡ get_authority t)
      × (uri.ue_id < 2 ^ 32)
      × (split_u32_to_u16 uri.ue_id ≡ (config.instance_id, config.service))

  filter_of : (config : ServiceConfig) → IsBounded config → IsFilterOf config
  unfolding service_filter split_u32_to_u16 any_uuri_fixed_authority_id get_authority
  filter_of config (service_fits, instance_fits) = (_, refl, refl, omega arith, ground arith)

  filters_of : (configs : List ServiceConfig) → Every IsBounded configs → Every IsFilterOf configs
  filters_of [] bounds = tt
  filters_of (config ∷ configs) (bound, bounds) =
      (filter_of config bound, filters_of configs bounds)

-- Where the services of a configuration file are read: the filter for every one of them is for this
-- device and has an entity id of 32 bits, whose upper half is the instance and whose lower half the
-- service of the file.
pub extract_services-service_filter :
    {Json M : Type 0} (world : World Json M) (t : Transport M) (path : String)
    (configs : List ServiceConfig)
    → extract_services world.files path ≡ ok configs
    → Every (IsFilterOf world t) configs
extract_services-service_filter world t path configs e =
    filters_of world t configs (extract_services_bound world.files path configs e)
