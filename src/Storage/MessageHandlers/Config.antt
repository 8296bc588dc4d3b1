-- ===== src/Storage/MessageHandlers/Config.antt =====
-- The listener configurations: `(UUri, Option<UUri>, ComparableListener)`.
use up_transport_vsomeip_rus.Prelude.{
  ℕ, ◌≡◌, ◌↔◌, Bool, true, ◌&&◌, Option, arith, Eq, ◌==◌, ==_iff, nat_eq, option_eq,
}
use up_transport_vsomeip_rus.UProtocol.{UUri, uuri_eq}

-- Two listeners are equal when they are one object, so a listener is a number.
pub record ListenerConfig : Type 0 where
  pub source_filter : UUri
  pub sink_filter : Option UUri
  pub listener : ℕ

abbrev pub config_beq : ListenerConfig → ListenerConfig → Bool
config_beq a b =
    a.source_filter == b.source_filter
    && (a.sink_filter == b.sink_filter && a.listener == b.listener)

pub config_beq_iff : (a b : ListenerConfig) → (config_beq a b ≡ true) ↔ (a ≡ b)
config_beq_iff a b =
    ground (arith, ==_iff a.source_filter b.source_filter, ==_iff a.sink_filter b.sink_filter)

instance abbrev pub config_eq : Eq ListenerConfig
config_eq = record { beq = config_beq; beq_iff = config_beq_iff }
