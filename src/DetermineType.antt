-- ===== src/DetermineType.antt =====
-- up-transport-vsomeip/src/determine_message_type.rs: the kind of message that a source and a sink
-- filter speak of.
pub mod Cases
use up_transport_vsomeip_rus.Prelude.{
  Bool, not, ◌&&◌, Option, none, some, ◌==◌, nat_eq, if◌then◌else◌,
}
use up_transport_vsomeip_rus.UProtocol.{UUri, UpRust}
use up_transport_vsomeip_rus.UProtocol.Status.{Result, ok}

pub data RegistrationType : Type 0 where
  publish request response all_point_to_point : RegistrationType

module _ (up : UpRust) where
  open up use {
    has_wildcard_authority, has_wildcard_entity_type, has_wildcard_entity_instance,
    has_wildcard_version, has_wildcard_resource_id,
  }

  -- the uStreamer use case, which captures all point-to-point messages
  unfoldable pub streamer_use_case : UUri → UUri → Bool
  streamer_use_case source_filter sink_filter =
      not (has_wildcard_authority source_filter)
      && (has_wildcard_entity_type source_filter
          && (has_wildcard_entity_instance source_filter
              && (has_wildcard_version source_filter
                  && (has_wildcard_resource_id source_filter
                      && (not (has_wildcard_authority sink_filter)
                          && (has_wildcard_entity_type sink_filter
                              && (has_wildcard_entity_instance sink_filter
                                  && (has_wildcard_version sink_filter
                                      && has_wildcard_resource_id sink_filter))))))))

  unfoldable pub determine_type : UUri → Option UUri → Result RegistrationType
  determine_type source_filter none = ok publish
  determine_type source_filter (some sink_filter) =
      if streamer_use_case source_filter sink_filter
      then ok all_point_to_point
      else if sink_filter.resource_id == 0
      then ok response
      else ok request
