-- ===== src/Storage/RpcCorrelation/Refinement.antt =====
-- The registry against an ideal one: two partial functions and a count of the sessions taken.
use mathlib.Core.Path.{ap₂}
use up_transport_vsomeip_rus.Prelude.{
  ℕ, ◌+◌, ◌%◌, ◌^◌, ◌≡◌, refl, false, Option, none, some, List, [], ◌∷◌, arith, ◌==◌, nat_eq,
  if◌then◌else◌,
}
use up_transport_vsomeip_rus.Collections.HashMap
use up_transport_vsomeip_rus.Collections.HashMap.{get-insert, get-remove, get-empty}
use up_transport_vsomeip_rus.UProtocol.{Uuid, UUri}
use up_transport_vsomeip_rus.UProtocol.Status.{
  UCode, already_exists, not_found, Result, ok, err, panicked,
}
use up_transport_vsomeip_rus.Storage.RpcCorrelation.{
  RpcCorrelation, new, session_or_1, retrieve_session_id, insert_ue_request_correlation,
  remove_ue_request_correlation, insert_me_request_correlation, remove_me_request_correlation,
}

pub data Call : Type 0 where
  retrieve : ℕ → Call
  insert_ue : ℕ → Uuid → UUri → Call
  remove_ue : ℕ → Call
  insert_me : Uuid → ℕ → Call
  remove_me : Uuid → Call

pub data Reply : Type 0 where
  session : ℕ → Reply
  stored : Reply
  request : Uuid → UUri → Reply
  someip_request : ℕ → Reply
  refused : UCode → Reply
  crash : Reply

abbrev reply_of {ℓ} : {A : Type ℓ} → (A → Reply) → Result A → Reply
reply_of f (ok a) = f a
reply_of f (err e) = refused e.code
reply_of f panicked = crash

-- A call of the registry, where overflows are not checked.
unfoldable pub serve : Call → RpcCorrelation → Reply × RpcCorrelation
serve (retrieve c) r = let (x, r') = retrieve_session_id false c r in (reply_of session x, r')
serve (insert_ue k id source) r =
    let (x, r') = insert_ue_request_correlation k id source r in (reply_of (λ _. stored) x, r')
serve (remove_ue k) r =
    let (x, r') = remove_ue_request_correlation k r in (reply_of (λ f. request f.0 f.1) x, r')
serve (insert_me id k) r =
    let (x, r') = insert_me_request_correlation id k r in (reply_of (λ _. stored) x, r')
serve (remove_me id) r =
    let (x, r') = remove_me_request_correlation id r in (reply_of someip_request x, r')

pub record Ideal : Type 0 where
  pub ue : ℕ → Option (Uuid × UUri)
  pub me : Uuid → Option ℕ
  -- how many sessions each client has taken
  pub taken : ℕ → ℕ

abbrev pub start : Ideal
start = record { ue = λ k. none; me = λ id. none; taken = λ c. 0 }

abbrev put {ℓ} : {V : Type ℓ} → (ℕ → V) → ℕ → V → ℕ → V
put f k v j = if k == j then v else f j

abbrev stored_or_refused {ℓ} : {A : Type ℓ} → Option A → Reply
stored_or_refused none = stored
stored_or_refused (some _) = refused already_exists

abbrev found_or_refused {ℓ} : {A : Type ℓ} → (A → Reply) → Option A → Reply
found_or_refused f none = refused not_found
found_or_refused f (some a) = f a

abbrev keep_old {ℓ} : {A : Type ℓ} → Option A → A → Option A
keep_old none a = some a
keep_old (some old) a = some old

-- The ideal registry: an insertion never replaces an entry, a removal takes the entry away, and
-- the session ids of a client count from 1, modulo 2 ^ 16.
unfoldable pub ideal : Call → Ideal → Reply × Ideal
ideal (retrieve c) p =
    (session ((1 + p.taken c) % 2 ^ 16), record p { taken = put p.taken c (p.taken c + 1) })
ideal (insert_ue k id source) p =
    (stored_or_refused (p.ue k), record p { ue = put p.ue k (keep_old (p.ue k) (id, source)) })
ideal (remove_ue k) p =
    (found_or_refused (λ f. request f.0 f.1) (p.ue k), record p { ue = put p.ue k none })
ideal (insert_me id k) p =
    (stored_or_refused (p.me id), record p { me = put p.me id (keep_old (p.me id) k) })
ideal (remove_me id) p =
    (found_or_refused someip_request (p.me id), record p { me = put p.me id none })

pub record Agrees (r : RpcCorrelation) (p : Ideal) : Type 0 where
  pub ue : (k : ℕ) → HashMap.get r.ue_request_correlation k ≡ p.ue k
  pub me : (id : Uuid) → HashMap.get r.me_request_correlation id ≡ p.me id
  pub sessions :
      (c : ℕ)
      → session_or_1 (HashMap.get r.client_id_session_id_tracking c) ≡ (1 + p.taken c) % 2 ^ 16
  pub healthy : r.session_ids_poisoned ≡ false

-- One call: the same reply, and states that agree again.
abbrev Simulates : Call → RpcCorrelation → Ideal → Type 0
Simulates c r p = ((serve c r).0 ≡ (ideal c p).0) × Agrees (serve c r).1 (ideal c p).1

module _ {r : RpcCorrelation} {p : Ideal} (h : Agrees r p) where
  Simulates-retrieve : (c : ℕ) → Simulates (retrieve c) r p
  unfolding serve ideal retrieve_session_id
  Simulates-retrieve c =
      let ids = r.client_id_session_id_tracking in
      let next = (session_or_1 (HashMap.get ids c) + 1) % 2 ^ 16 in
      (
        ground (arith, h.sessions c, h.healthy),
        rw (h.healthy, retrieve_session_id)
            (record {
              ue = h.ue;
              me = h.me;
              sessions = λ d. ground (arith, h.sessions c, h.sessions d, get-insert ids c d next);
              healthy = ground arith;
            }),
      )

  Simulates-insert_ue : (k : ℕ) (id : Uuid) (source : UUri) → Simulates (insert_ue k id source) r p
  unfolding serve ideal insert_ue_request_correlation
  Simulates-insert_ue k id source = (
    ground (arith, h.ue k),
    record {
      ue =
          λ j. ground (arith, h.ue k, h.ue j, get-insert r.ue_request_correlation k j (id, source));
      me = λ j. ground (arith, h.me j);
      sessions = λ d. ground (arith, h.sessions d);
      healthy = ground (arith, h.healthy);
    },
  )

  Simulates-remove_ue : (k : ℕ) → Simulates (remove_ue k) r p
  unfolding serve ideal remove_ue_request_correlation
  Simulates-remove_ue k = (
    ground (arith, h.ue k),
    record {
      ue = λ j. ground (arith, h.ue k, h.ue j, get-remove r.ue_request_correlation k j);
      me = λ j. ground (arith, h.me j);
      sessions = λ d. ground (arith, h.sessions d);
      healthy = ground (arith, h.healthy);
    },
  )

  Simulates-insert_me : (id : Uuid) (k : ℕ) → Simulates (insert_me id k) r p
  unfolding serve ideal insert_me_request_correlation
  Simulates-insert_me id k = (
    ground (arith, h.me id),
    record {
      ue = λ j. ground (arith, h.ue j);
      me = λ j. ground (arith, h.me id, h.me j, get-insert r.me_request_correlation id j k);
      sessions = λ d. ground (arith, h.sessions d);
      healthy = ground (arith, h.healthy);
    },
  )

  Simulates-remove_me : (id : Uuid) → Simulates (remove_me id) r p
  unfolding serve ideal remove_me_request_correlation
  Simulates-remove_me id = (
    ground (arith, h.me id),
    record {
      ue = λ j. ground (arith, h.ue j);
      me = λ j. ground (arith, h.me id, h.me j, get-remove r.me_request_correlation id j);
      sessions = λ d. ground (arith, h.sessions d);
      healthy = ground (arith, h.healthy);
    },
  )

  serve-Simulates : (c : Call) → Simulates c r p
  serve-Simulates (retrieve c) = Simulates-retrieve c
  serve-Simulates (insert_ue k id source) = Simulates-insert_ue k id source
  serve-Simulates (remove_ue k) = Simulates-remove_ue k
  serve-Simulates (insert_me id k) = Simulates-insert_me id k
  serve-Simulates (remove_me id) = Simulates-remove_me id

-- The replies to a sequence of calls.
unfoldable pub serve_all : List Call → RpcCorrelation → List Reply
serve_all [] r = []
serve_all (c ∷ calls) r = (serve c r).0 ∷ serve_all calls (serve c r).1

unfoldable pub ideal_all : List Call → Ideal → List Reply
ideal_all [] p = []
ideal_all (c ∷ calls) p = (ideal c p).0 ∷ ideal_all calls (ideal c p).1

serve_all-Agrees :
    (calls : List Call) {r : RpcCorrelation} {p : Ideal}
    → Agrees r p
    → serve_all calls r ≡ ideal_all calls p
unfolding serve_all ideal_all
serve_all-Agrees [] h = refl
serve_all-Agrees (c ∷ calls) h =
    let (same, agrees) = serve-Simulates h c in ap₂ ◌∷◌ same (serve_all-Agrees calls agrees)

new-Agrees : Agrees new start
unfolding new
new-Agrees = record {
  ue = λ k. get-empty k;
  me = λ id. get-empty id;
  sessions = λ c. ground (arith, get-empty {V = ℕ} c);
  healthy = refl;
}

-- To any sequence of calls, from its creation on, the registry replies as the ideal one does,
-- where overflows are not checked.
pub serve_all-ideal_all : (calls : List Call) → serve_all calls new ≡ ideal_all calls start
serve_all-ideal_all calls = serve_all-Agrees calls new-Agrees
