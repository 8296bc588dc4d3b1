-- ===== src/Transport/LocalUri.antt =====
-- `impl LocalUriProvider for UPTransportVsomeip` (up-transport-vsomeip/src/transport.rs).
use up_transport_vsomeip_rus.Prelude.{ℕ, String}
use up_transport_vsomeip_rus.UProtocol.{UUri}
use up_transport_vsomeip_rus.Transport.{Transport}

module _ {M : Type 0} where
  unfoldable pub get_source_uri : Transport M → UUri
  get_source_uri t = t.host.storage.uri

  unfoldable pub get_authority : Transport M → String
  get_authority t = t.host.storage.uri.authority_name

  unfoldable pub get_resource_uri : ℕ → Transport M → UUri
  get_resource_uri resource_id t = record t.host.storage.uri { resource_id = resource_id }
