-- ===== src/Glue.antt =====
-- vsomeip-sys/src/glue_additions.rs over the C++ glue in vsomeip-sys/src/glue: wrappers of the shared
-- pointers of vsomeip's objects, on which the safe functions of the crate stand.
pub mod Application
pub mod Payload
use up_transport_vsomeip_rus.Prelude.{Option, none, some, ℕ}

-- What a call comes to: a value, a panic of Rust, or behaviour that C++ leaves undefined.
pub data Outcome {ℓ} (A : Type ℓ) : Type ℓ where
  returns : A → Outcome A
  panics : Outcome A
  undefined : Outcome A

-- A pointer is an address, or null.
abbrev pub Pointer : Type 0
Pointer = Option ℕ

-- `get_pinned`: `Pin::new_unchecked(self.get_mut().as_mut().unwrap())`
abbrev pub get_pinned : Pointer → Outcome ℕ
get_pinned none = panics
get_pinned (some a) = returns a

-- a pointer that C++ follows without a look
abbrev pub follow : Pointer → Outcome ℕ
follow none = undefined
follow (some a) = returns a

-- `get_message_base_pinned`, on which the upcast to the base class changes nothing
abbrev pub get_message_base_pinned : Pointer → Outcome ℕ
get_message_base_pinned none = panics
get_message_base_pinned (some a) = returns a
