-- ===== src/Storage/StateHandlers/Wiring.antt =====
-- The maps to the ends of the channels come to a channel for each function.
use mathlib.Core.Path.{◌∙◌, ap₂, subst, sym, fun_ext}
use up_transport_vsomeip_rus.Prelude.{
  ℕ, zero, suc, ◌≡◌, refl, ap, Bool, true, false, Option, none, some, List, [], ◌∷◌, ◌++◌, length,
  ltb, nat_beq, nat_eq, arith, if◌then◌else◌,
}
use up_transport_vsomeip_rus.Collections.HashMap
use up_transport_vsomeip_rus.Collections.HashMap.{get-insert, get-empty}
use up_transport_vsomeip_rus.UProtocol.Status.{Result, ok, err, panicked}
use up_transport_vsomeip_rus.Storage.StateHandlers
use up_transport_vsomeip_rus.Storage.StateHandlers.{
  StateHandlers, num_state_handlers, get_state_handler, call_state_handler,
}
use up_transport_vsomeip_rus.Storage.StateHandlers.Generated
use up_transport_vsomeip_rus.Storage.StateHandlers.Generated.{
  Statics, connect, connect_below, initialize_sender_receiver, new_trait_obj, call_shared_extern_fn,
  get_extern_fn,
}

-- What happens to the statics, in any order: another registry is made, vsomeip calls a function
-- with a state, or an engine asks for a function, and waits for a state.
pub data Event : Type 0 where
  makes : Event
  calls : (id state : ℕ) → Event
  waits : (id : ℕ) → Event

pub data Reply : Type 0 where
  nothing : Reply
  -- the function, and the state, if there was one
  waited : ℕ → Option ℕ → Reply
  crash : Reply

-- a function that vsomeip calls is one of those that were generated
abbrev called : ℕ → {S : Type 0} → (S → S) → S → S
called id f s = if ltb id num_state_handlers then f s else s

unfoldable waits_on : Result (ℕ × ℕ) → Statics → Reply × Statics
unfolding Generated.recv
waits_on (ok (f, c)) s = let (state, s') = Generated.recv c s in (waited f state, s')
waits_on (err e) s = (crash, s)
waits_on panicked s = (crash, s)

unfoldable pub happens : Event → Statics → Reply × Statics
unfolding new_trait_obj call_shared_extern_fn get_extern_fn waits_on
happens makes s = (nothing, new_trait_obj s)
happens (calls id state) s = (nothing, called id (call_shared_extern_fn id state) s)
happens (waits id) s = waits_on (get_extern_fn id s) s

unfoldable waits_ideally : Result ℕ → ℕ → StateHandlers → Reply × StateHandlers
unfolding StateHandlers.recv
waits_ideally (ok f) id s = let (state, s') = StateHandlers.recv id s in (waited f state, s')
waits_ideally (err e) id s = (crash, s)
waits_ideally panicked id s = (crash, s)

unfoldable pub ideally : Event → StateHandlers → Reply × StateHandlers
unfolding get_state_handler call_state_handler waits_ideally
ideally makes s = (nothing, s)
ideally (calls id state) s = (nothing, called id (call_state_handler id state) s)
ideally (waits id) s = waits_ideally (get_state_handler id) id s

unfoldable pub happens_all : List Event → Statics → List Reply
happens_all [] s = []
happens_all (e ∷ es) s = let (r, s') = happens e s in r ∷ happens_all es s'

unfoldable pub ideally_all : List Event → StateHandlers → List Reply
ideally_all [] s = []
ideally_all (e ∷ es) s = let (r, s') = ideally e s in r ∷ ideally_all es s'

-- Every function has the channel of its number, with the same states.
record Wired (s : Statics) (t : StateHandlers) : Type 0 where
  done : s.initialized ≡ true
  sent :
      (id : ℕ)
      → HashMap.get s.senders id ≡ (if ltb id num_state_handlers then some (some id) else none)
  got :
      (id : ℕ)
      → HashMap.get s.receivers id ≡ (if ltb id num_state_handlers then some (some id) else none)
  states : s.channels ≡ t.received

connect_below_lem :
    (n : ℕ)
    → let s = connect_below n Generated.new in
      (s.made ≡ n)
      × ((id : ℕ) → HashMap.get s.senders id ≡ (if ltb id n then some (some id) else none))
      × ((id : ℕ) → HashMap.get s.receivers id ≡ (if ltb id n then some (some id) else none))
      × ((id : ℕ) → s.channels id ≡ [])
unfolding connect_below connect Generated.new
connect_below_lem zero =
    (refl, (λ id. grind (arith, get-empty)), (λ id. grind (arith, get-empty)), λ id. refl)
connect_below_lem (suc n) =
    let (made, sent, got, empty) = connect_below_lem n in
    (
      ap suc made,
      (λ id. grind (arith, get-insert)),
      (λ id. grind (arith, get-insert)),
      λ id. ground (arith, empty id),
    )

made-Wired : Wired (new_trait_obj Generated.new) StateHandlers.new
unfolding new_trait_obj initialize_sender_receiver StateHandlers.new Generated.new
made-Wired =
    let (_, sent, got, empty) = connect_below_lem num_state_handlers in
    record { done = refl; sent = sent; got = got; states = fun_ext empty }

new_trait_obj-again : (s : Statics) → s.initialized ≡ true → new_trait_obj s ≡ s
unfolding new_trait_obj
new_trait_obj-again s done = ground (arith, done)

-- channels whose states are those of a model of them
put-Wired :
    (s : Statics) (t t' : StateHandlers)
    → Wired s t
    → Wired (record s { channels = t'.received }) t'
put-Wired s t t' w = record { done = w.done; sent = w.sent; got = w.got; states = refl }

-- what a channel gets, put in where the channels are or state by state
deliver_same :
    (id state : ℕ) (f : ℕ → List ℕ)
    → (if ltb (length (f id)) 1000 then Generated.set id (f id ++ state ∷ []) f else f) ≡ (λ j.
        if nat_beq id j then (if ltb (length (f j)) 1000 then f j ++ state ∷ [] else f j) else f j)
deliver_same id state f = fun_ext (λ j. grind arith)

call_shared_extern_fn_lem :
    (id state : ℕ) (s : Statics) (t : StateHandlers)
    → s.channels ≡ t.received
    → HashMap.get s.senders id ≡ some (some id)
    → call_shared_extern_fn id state s
      ≡ record s { channels = (call_state_handler id state t).received }
unfolding call_shared_extern_fn call_state_handler
call_shared_extern_fn_lem id state s t same there =
    let here : call_shared_extern_fn id state s ≡ record s {
      channels =
          if ltb (length (s.channels id)) 1000
          then Generated.set id (s.channels id ++ state ∷ []) s.channels
          else s.channels;
    } =
      ground (arith, there) in
    here ∙ ap (λ f. record s { channels = f }) (rw (same) (deliver_same id state t.received))

call_shared_extern_fn-Wired :
    (id state : ℕ) (s : Statics) (t : StateHandlers)
    → Wired s t
    → HashMap.get s.senders id ≡ some (some id)
    → Wired (call_shared_extern_fn id state s) (call_state_handler id state t)
call_shared_extern_fn-Wired id state s t w there =
    let t' = call_state_handler id state t in
    subst (λ x. Wired x t') (sym (call_shared_extern_fn_lem id state s t w.states there))
      (put-Wired s t t' w)

recv_same :
    (id : ℕ) (s : Statics) (t : StateHandlers)
    → s.channels ≡ t.received
    → let (state, t') = StateHandlers.recv id t in
      Generated.recv id s ≡ (state, record s { channels = t'.received })
unfolding Generated.recv StateHandlers.recv
recv_same id s t same = rw (same) (ground arith)

recv-Wired :
    (id : ℕ) (s : Statics) (t : StateHandlers)
    → Wired s t
    → let (state, s') = Generated.recv id s in
      let (state', t') = StateHandlers.recv id t in (state ≡ state') × Wired s' t'
recv-Wired id s t w =
    let same = recv_same id s t w.states in
    let t' = (StateHandlers.recv id t).1 in
    (ap (λ x. x.0) same, subst (λ x. Wired x t') (sym (ap (λ x. x.1) same)) (put-Wired s t t' w))

when-Wired :
    (b : Bool) (s s' : Statics) (t t' : StateHandlers)
    → Wired s t
    → (b ≡ true → Wired s' t')
    → Wired (if b then s' else s) (if b then t' else t)
when-Wired true s s' t t' w w' = w' refl
when-Wired false s s' t t' w w' = w

get_extern_fn_lem :
    (id : ℕ) (s : Statics) (t : StateHandlers)
    → Wired s t
    → get_extern_fn id s ≡ (if ltb id num_state_handlers then ok (id, id) else panicked)
unfolding get_extern_fn
get_extern_fn_lem id s t w = ground (arith, w.got id)

waits_on-Wired :
    (id : ℕ) (b : Bool) (s : Statics) (t : StateHandlers)
    → Wired s t
    → let (r, s') = waits_on (if b then ok (id, id) else panicked) s in
      let (r', t') = waits_ideally (if b then ok id else panicked) id t in (r ≡ r') × Wired s' t'
unfolding waits_on waits_ideally
waits_on-Wired id true s t w = let (same, w') = recv-Wired id s t w in (ap (waited id) same, w')
waits_on-Wired id false s t w = (refl, w)

happens-Wired :
    (e : Event) (s : Statics) (t : StateHandlers)
    → Wired s t
    → ((happens e s).0 ≡ (ideally e t).0) × Wired (happens e s).1 (ideally e t).1
unfolding happens ideally get_state_handler
happens-Wired makes s t w = (refl, subst (λ x. Wired x t) (sym (new_trait_obj-again s w.done)) w)
happens-Wired (calls id state) s t w = (
  refl,
  when-Wired (ltb id num_state_handlers) s _ t _ w (λ there.
      call_shared_extern_fn-Wired id state s t w
        (w.sent id ∙ ap (λ b. if b then some (some id) else none) there)),
)
happens-Wired (waits id) s t w =
    rw (get_extern_fn_lem id s t w) (waits_on-Wired id (ltb id num_state_handlers) s t w)

happens_all-Wired :
    (es : List Event) (s : Statics) (t : StateHandlers)
    → Wired s t
    → happens_all es s ≡ ideally_all es t
unfolding happens_all ideally_all
happens_all-Wired [] s t w = refl
happens_all-Wired (e ∷ es) s t w =
    let (same, w') = happens-Wired e s t w in ap₂ ◌∷◌ same (happens_all-Wired es _ _ w')

-- From the first registry of a process on, whatever registries are made later, whatever states
-- vsomeip reports through the functions and whichever functions are waited for, in any order: the
-- states that come out are those of a channel of 1000 states for each function, where a state that
-- is sent on a full channel is not followed, and a wait panics exactly for a function that is not
-- there.
pub happens_all-ideally_all :
    (es : List Event)
    → happens_all es (new_trait_obj Generated.new) ≡ ideally_all es StateHandlers.new
happens_all-ideally_all es = happens_all-Wired es _ _ made-Wired
