-- ===== src/Engine/Channel/Snoc.antt =====
-- One more command, or one more message, at the end of what has happened.
use up_transport_vsomeip_rus.Prelude.{
  ℕ, suc, ◌≡◌, refl, sym, ap, List, [], ◌∷◌, ◌++◌, length, nat_eq, arith,
}
use up_transport_vsomeip_rus.Collections.HashSet.{IterOrder}
use up_transport_vsomeip_rus.UProtocol.Status.{Result, ok, err, panicked}
use up_transport_vsomeip_rus.UProtocol.{Uuid, UpRust}
use up_transport_vsomeip_rus.Vsomeip.{VsomeipMessage, VsomeipApi}
use up_transport_vsomeip_rus.Storage.{Host}
use up_transport_vsomeip_rus.Engine.{TransportCommand, Environment, handle_command, answer}
use up_transport_vsomeip_rus.Engine.Channel.Happenings.{
  Happening, took, arrived, commands, receive, receive_all, replay,
}

-- a reply that is put after others; a panic puts none
abbrev pub put : Result (Unit {0}) → List (Result (Unit {0})) → List (Result (Unit {0}))
put (ok a) rs = rs ++ ok a ∷ []
put (err e) rs = rs ++ err e ∷ []
put panicked rs = rs

pub commands-took :
    (es : List Happening) (env : Environment) (cmd : TransportCommand)
    → commands (es ++ took env cmd ∷ []) ≡ commands es ++ cmd ∷ []
commands-took [] env cmd = refl
commands-took (took e c ∷ es) env cmd = ap (λ l. c ∷ l) (commands-took es env cmd)
commands-took (arrived fresh msg ∷ es) env cmd = commands-took es env cmd

pub commands-arrived :
    (es : List Happening) (fresh : Uuid) (msg : VsomeipMessage)
    → commands (es ++ arrived fresh msg ∷ []) ≡ commands es
commands-arrived [] fresh msg = refl
commands-arrived (took e c ∷ es) fresh msg = ap (λ l. c ∷ l) (commands-arrived es fresh msg)
commands-arrived (arrived f m ∷ es) fresh msg = commands-arrived es fresh msg

put-cons : (r x : Result (Unit {0})) (rs : List (Result (Unit {0}))) → put r (x ∷ rs) ≡ x ∷ put r rs
put-cons (ok a) x rs = refl
put-cons (err e) x rs = refl
put-cons panicked x rs = refl

abbrev Answers : Type 0
Answers = List (Result (Unit {0})) × Host

-- one more command at the end, before which there is one at the beginning
snoc-answer :
    (r : Result (Unit {0})) (g h : Host) (short long : Answers)
    (f : Host → Result (Unit {0}) × Host) (n : ℕ)
    → length (answer r h short).0 ≡ suc n
    → (length short.0 ≡ n → long ≡ (put (f short.1).0 short.0, (f short.1).1))
    → answer r g long
      ≡ (put (f (answer r h short).1).0 (answer r h short).0, (f (answer r h short).1).1)
snoc-answer (ok a) g h short long f n l step =
    let e = step (omega (arith, l)) in
    rw (e) (ap (λ x. (x, (f short.1).1)) (sym (put-cons (f short.1).0 (ok a) short.0)))
snoc-answer (err x) g h short long f n l step =
    let e = step (omega (arith, l)) in
    rw (e) (ap (λ x. (x, (f short.1).1)) (sym (put-cons (f short.1).0 (err x) short.0)))
snoc-answer panicked g h short long f n l step = absurd (omega (arith, l))

-- one more message at the end
arrived-answer :
    (r : Result (Unit {0})) (g h : Host) (short long : Answers) (f : Host → Host)
    → g ≡ f h
    → long ≡ (short.0, f short.1)
    → answer r g long ≡ ((answer r h short).0, f (answer r h short).1)
arrived-answer (ok a) g h short long f e step = rw (step) refl
arrived-answer (err x) g h short long f e step = rw (step) refl
arrived-answer panicked g h short long f e step = rw (e) refl

module _ (up : UpRust) (vs : VsomeipApi) (order : IterOrder ℕ) where
  alone : (x : Result (Unit {0}) × Host) → answer x.0 x.1 ([], x.1) ≡ (put x.0 [], x.1)
  alone (ok a, h) = refl
  alone (err e, h) = refl
  alone (panicked, h) = refl

  -- one more command at the end, when all before have a reply
  pub replay-took :
      (es : List Happening) (env : Environment) (cmd : TransportCommand) (h : Host)
      → length (replay up vs order es h).0 ≡ length (commands es)
      → let (rs, h1) = replay up vs order es h in
        let (r, h2) = handle_command vs order env cmd h1 in
        replay up vs order (es ++ took env cmd ∷ []) h ≡ (put r rs, h2)
  unfolding replay receive_all
  replay-took [] env cmd h l = alone (handle_command vs order env cmd h)
  replay-took (took e c ∷ es) env cmd h l =
      let (r, h0) = handle_command vs order e c h in
      snoc-answer r _ _ (replay up vs order es h0) (replay up vs order (es ++ took env cmd ∷ []) h0)
        (handle_command vs order env cmd) (length (commands es)) l (replay-took es env cmd h0)
  replay-took (arrived fresh msg ∷ es) env cmd h l =
      replay-took es env cmd (receive up vs fresh msg h) l

  receive_all-arrived :
      (es : List Happening) (fresh : Uuid) (msg : VsomeipMessage) (h : Host)
      → receive_all up vs order (es ++ arrived fresh msg ∷ []) h
        ≡ receive up vs fresh msg (receive_all up vs order es h)
  unfolding receive_all
  receive_all-arrived [] fresh msg h = refl
  receive_all-arrived (took e c ∷ es) fresh msg h = receive_all-arrived es fresh msg h
  receive_all-arrived (arrived f m ∷ es) fresh msg h =
      receive_all-arrived es fresh msg (receive up vs f m h)

  -- one more message at the end
  pub replay-arrived :
      (es : List Happening) (fresh : Uuid) (msg : VsomeipMessage) (h : Host)
      → let (rs, h1) = replay up vs order es h in
        replay up vs order (es ++ arrived fresh msg ∷ []) h ≡ (rs, receive up vs fresh msg h1)
  unfolding replay receive_all
  replay-arrived [] fresh msg h = refl
  replay-arrived (took e c ∷ es) fresh msg h =
      let (r, h0) = handle_command vs order e c h in
      arrived-answer r _ _ (replay up vs order es h0) _ (receive up vs fresh msg)
        (receive_all-arrived es fresh msg h0) (replay-arrived es fresh msg h0)
  replay-arrived (arrived f m ∷ es) fresh msg h = replay-arrived es fresh msg (receive up vs f m h)
