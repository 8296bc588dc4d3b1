-- ===== src/Storage/MessageHandlers/Threads/Linearisation.antt =====
-- Every step of the threads keeps them linked to their calls one after the other.
use up_transport_vsomeip_rus.Prelude.{ℕ, refl, Bool, nat_eq, arith}
use up_transport_vsomeip_rus.Collections.HashSet.{IterOrder}
use up_transport_vsomeip_rus.Collections.BiMap.{BiMap}
use up_transport_vsomeip_rus.Storage.MessageHandlers.Config.{ListenerConfig, config_eq}
use up_transport_vsomeip_rus.Storage.MessageHandlers.{Handlers}
use up_transport_vsomeip_rus.Storage.MessageHandlers.Threads.{write, read}
use up_transport_vsomeip_rus.Storage.MessageHandlers.Threads.System.{
  System, Step, calls, locks_transports, locks_free_ids, locks_configs, works, drops, returns,
  locks_read, looks, returns_read, Reach, start, later,
}
use up_transport_vsomeip_rus.Storage.MessageHandlers.Threads.Exclusion.{
  IsExclusive, Reach-IsExclusive,
}
use up_transport_vsomeip_rus.Storage.MessageHandlers.Threads.Sequential.{replay}
use up_transport_vsomeip_rus.Storage.MessageHandlers.Threads.Linking.{
  quiet, Linked, moves-Linked, waits-Linked,
}
use up_transport_vsomeip_rus.Storage.MessageHandlers.Threads.Writing.{
  locks_configs-Linked, works-Linked,
}
use up_transport_vsomeip_rus.Storage.MessageHandlers.Threads.Reading.{looks-Linked}

module _ {M : Type 0} (bimap : BiMap ℕ ListenerConfig M) (order : IterOrder ℕ) (alive : ℕ → Bool)
    (w : Handlers M) where
  abbrev Links : System M → Type 0
  Links = Linked bimap order alive w

  Step-Linked :
      {s t : System M} → Step bimap order alive s t → IsExclusive s.pcs → Links s → Links t
  Step-Linked {s} (calls n (write c) rested) x l =
      waits-Linked bimap order alive w s n _ (ground arith) refl refl refl l
  Step-Linked {s} (calls n (read c) rested) x l =
      waits-Linked bimap order alive w s n _ (ground arith) refl refl refl l
  Step-Linked {s} (locks_transports n c e f) x l =
      waits-Linked bimap order alive w s n _ (ground arith) refl refl refl l
  Step-Linked {s} (locks_free_ids n c e f) x l =
      waits-Linked bimap order alive w s n _ (ground arith) refl refl refl l
  Step-Linked {s} (locks_configs n c e f) x l = locks_configs-Linked bimap order alive w s n c x e l
  Step-Linked {s} (works n k c stage e) x l = works-Linked bimap order alive w s n k c stage e l
  Step-Linked {s} (drops n k guard guards q r e) x l =
      moves-Linked bimap order alive w s n _ (ground arith) refl (λ j a h. ground arith)
        (λ j a h. ground arith) l
  Step-Linked {s} (returns n k q r e) x l =
      moves-Linked bimap order alive w s n _ (ground arith) refl (λ j a h. ground arith)
        (λ j a h. ground arith) l
  Step-Linked {s} (locks_read n c e f) x l =
      waits-Linked bimap order alive w s n _ (ground arith) refl refl refl l
  Step-Linked {s} (looks n c e) x l = looks-Linked bimap order alive w s n c x e l
  Step-Linked {s} (returns_read n k c r e) x l =
      moves-Linked bimap order alive w s n _ (ground arith) refl (λ j a h. ground arith)
        (λ j a h. ground arith) l

  pub Reach-Linked : {s : System M} → Reach bimap order alive w s → Links s
  unfolding replay
  Reach-Linked start = record {
    settled = quiet (λ m. refl) refl;
    answered = λ n k r h. absurd (ground arith);
    asked = λ n k q h. absurd (ground arith);
  }
  Reach-Linked (later r step) =
      Step-Linked step (Reach-IsExclusive bimap order alive r) (Reach-Linked r)
