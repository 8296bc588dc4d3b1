-- ===== src/Transport/Histories.antt =====
-- Any sequence of calls of a transport.
use up_transport_vsomeip_rus.Prelude.{ℕ, ◌≡◌, refl, some, Option, List, [], ◌∷◌, nat_eq}
use up_transport_vsomeip_rus.Action.{Action}
use up_transport_vsomeip_rus.UProtocol.{UUri, UMessage}
use up_transport_vsomeip_rus.Storage.MessageHandlers.Config.{config_eq}
use up_transport_vsomeip_rus.Storage.MessageHandlers.Consistency.{IsConsistent}
use up_transport_vsomeip_rus.Transport.{Transport, World}
use up_transport_vsomeip_rus.Transport.Api.{send, register_listener, unregister_listener}
use up_transport_vsomeip_rus.Transport.Life.{drop}
use up_transport_vsomeip_rus.Transport.Consistency.{consistent}
use up_transport_vsomeip_rus.Transport.Identity.{SameTransport, same}
use up_transport_vsomeip_rus.Transport.Invariants.{Invariant, Keeps}
use up_transport_vsomeip_rus.Transport.Invariants.Calls.{
  Keeps-send, Keeps-register_listener, Keeps-unregister_listener, Keeps-drop,
}

-- A call of a transport.
pub data Call : Type 0 where
  sends : UMessage → Call
  registers unregisters : UUri → Option UUri → ℕ → Call
  drops : Call

module _ {Json M : Type 0} (world : World Json M) where
  unfoldable pub perform : Call → Action (Transport M) (Unit {0})
  perform (sends message) = send world message
  perform (registers src sink listener) = register_listener world src sink listener
  perform (unregisters src sink listener) = unregister_listener world src sink listener
  perform drops = drop world

  Keeps-perform : (inv : Invariant world) (call : Call) → Keeps inv (perform call)
  unfolding perform
  Keeps-perform inv (sends message) = Keeps-send inv message
  Keeps-perform inv (registers src sink listener) = Keeps-register_listener inv src sink listener
  Keeps-perform inv (unregisters src sink listener) =
      Keeps-unregister_listener inv src sink listener
  Keeps-perform inv drops = Keeps-drop inv

  unfoldable pub perform_all : List Call → Transport M → Transport M
  unfolding perform
  perform_all [] t = t
  perform_all (call ∷ calls) t = perform_all calls (perform call t).1

  holds-perform_all :
      (inv : Invariant world) (calls : List Call) (t : Transport M)
      → inv.holds t
      → inv.holds (perform_all calls t)
  unfolding perform_all
  holds-perform_all inv [] t h = h
  holds-perform_all inv (call ∷ calls) t h =
      holds-perform_all inv calls (perform call t).1 ((Keeps-perform inv call).keeps t h)

  -- Whatever is called of a transport, with whatever outcome, the engine's panics and silence
  -- included: where each of the 10000 extern functions was either free or held by one transport
  -- that has a listener for it, it is so afterwards.
  pub perform_all-IsConsistent :
      (calls : List Call) (t : Transport M)
      → IsConsistent world.bimap t.handlers
      → IsConsistent world.bimap (perform_all calls t).handlers
  perform_all-IsConsistent calls t c = holds-perform_all (consistent world) calls t c

  -- Whatever is called of a transport that has a listener for all point-to-point messages, with
  -- whatever outcome: it keeps that listener, its URI, its vsomeip application and the path of its
  -- configuration file, even when it unregisters the listener.
  pub perform_all-SameTransport :
      (calls : List Call) (t : Transport M) (listener : ℕ)
      → t.point_to_point_listener ≡ some listener
      → SameTransport t listener (perform_all calls t)
  perform_all-SameTransport calls t listener e =
      holds-perform_all (same world t listener) calls t ((refl, refl), refl, e)
