-- ===== src/Rpc/Cycle.antt =====
-- The receiving thread of src/socket/bson_rpc_socket/bson_rpc_socket.cpp over many messages.
use mros_w24_solution.Common.{
  String, Bool, true, false, List, [], ◌∷◌, ◌++◌, Option, none, some, ◌>>=◌, ◌≡◌, refl, ap, ◌∙◌,
  sym, if◌then◌else◌, arith, Option-cases, inl, inr, ◌⊎◌, ◌==◌, >>=-eq-some,
}
use mros_w24_solution.Containers.Table.{lookup-assign}
use mros_w24_solution.Json.{JsonLib, Json}
use mros_w24_solution.Rpc.{
  Callbacks, request_message, closing_message, register_request_callback, run_closing_callback,
  dispatch, receive_round, receive_rounds, receive_cycle,
}
use mros_w24_solution.Rpc.Dispatch.{
  classify-closing_message, classify-null, classify-nil, receive_round-request, go_on,
}

module _ ⦃json : JsonLib⦄ where
  open json use {null, object}

  -- A message that ends the loop: the peer's closing message, or a receive that throws.
  pub data Ends : Option Json → Type 0 where
    closed : (b : Bool) → Ends (some (closing_message b))
    failed : Ends none

  -- What the loop does on such a message, if the earlier message was cleared or is still null.
  abbrev pub IsCleared : Json → Type 0
  IsCleared m = (m ≡ null) ⊎ (m ≡ object [])

  module _ {W : Type 0} (s : Callbacks W) where
    abbrev pub finish : W → Option (W × Bool)
    finish w = run_closing_callback s.closing_callback w >>= λ w'. some (w', false)

    pub receive_round-Ends :
        (before : Json) {e : Option Json} (w : W)
        → IsCleared before
        → Ends e
        → receive_round s before e w ≡ finish w
    unfolding receive_round dispatch
    receive_round-Ends before w c (closed b) = rw (classify-closing_message b) refl
    receive_round-Ends before w (inl e) failed = rw (e, classify-null) refl
    receive_round-Ends before w (inr e) failed = rw (e, classify-nil) refl

    -- What follows a round.
    abbrev follow : List (Option Json) → W × Bool → Option (W × Bool)
    follow ms (w, true) = receive_rounds s (object []) ms w
    follow ms (w, false) = some (w, false)

    receive_rounds-cons :
        (before : Json) (m : Option Json) (ms : List (Option Json)) (w : W)
        → receive_rounds s before (m ∷ ms) w ≡ (receive_round s before m w >>= follow ms)
    unfolding receive_rounds
    receive_rounds-cons before m ms w = ground arith

    finish-follow : (ms : List (Option Json)) (w : W) → (finish w >>= follow ms) ≡ finish w
    finish-follow ms w = elim (Option-cases (run_closing_callback s.closing_callback w)) [
      | inl e ↦ rw e refl
      | inr (w', e) ↦ rw e refl
    ]

    follow-Ends :
        (ms ms' : List (Option Json)) (p : W × Bool) {w : W} {r : Option (W × Bool)}
        → follow ms p ≡ some (w, true)
        → ((v : W)
            → receive_rounds s (object []) ms v ≡ some (w, true)
            → receive_rounds s (object []) ms' v ≡ r)
        → follow ms' p ≡ r
    follow-Ends ms ms' (v, true) later ih = ih v later
    follow-Ends ms ms' (v, false) later ih = cc

    receive_rounds-Ends :
        (before : Json) (ms : List (Option Json)) {e : Option Json} (rest : List (Option Json))
        (w w' : W)
        → IsCleared before
        → receive_rounds s before ms w ≡ some (w', true)
        → Ends e
        → receive_rounds s before (ms ++ e ∷ rest) w ≡ finish w'
    receive_rounds-Ends before [] {e} rest w w' c h k =
        let same : w ≡ w' = unfold receive_rounds in cc in
        receive_rounds-cons before e rest w
        ∙ rw (receive_round-Ends before w c k) (finish-follow rest w ∙ ap finish same)
    receive_rounds-Ends before (m ∷ ms) {e} rest w w' c h k =
        let (p, now, later) =
          >>=-eq-some (receive_round s before m w) (follow ms)
            (sym (receive_rounds-cons before m ms w) ∙ h) in
        receive_rounds-cons before m (ms ++ e ∷ rest) w
        ∙ rw now (
            follow-Ends ms _ p later
              (λ v l. receive_rounds-Ends (object []) ms rest v w' (inr refl) l k))

    -- Once the peer closes, or a receive fails, the closing callback runs once on what the earlier
    -- messages have left, the loop ends, and no later message is read.
    pub receive_cycle-Ends :
        (ms : List (Option Json)) {e : Option Json} (rest : List (Option Json)) (w w' : W)
        → receive_cycle s ms w ≡ some (w', true)
        → Ends e
        → receive_cycle s (ms ++ e ∷ rest) w ≡ finish w'
    unfolding receive_cycle
    receive_cycle-Ends ms rest w w' h k = receive_rounds-Ends null ms rest w w' (inl refl) h k

    -- A callback that is registered is the one that the peer's requests of its name reach, and the
    -- requests of other names go where they went.
    pub receive_round-register :
        (name other : String) (f : Json → W → Option W) (before argument : Json) (w : W)
        → receive_round
            (register_request_callback name f s)
            before
            (some (request_message other argument))
            w
          ≡ (if name == other
              then go_on (f argument w)
              else receive_round s before (some (request_message other argument)) w)
    unfolding register_request_callback
    receive_round-register name other f before argument w =
        simp (receive_round-request, lookup-assign) (ground arith)
