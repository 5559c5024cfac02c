-- ===== src/Rpc/Handshake/Starts.antt =====
-- The start of a connection in src/socket/bson_rpc_socket/client_bson_rpc_socket.cpp and
-- src/socket/bson_rpc_socket/connection_bson_rpc_socket.cpp: what the client knows when
-- `connectToServer` returns, and that neither end waits for good.
use mros_w24_solution.Common.{
  Bool, List, ◌&&◌, if◌then◌else◌, true, false, [], ◌∷◌, Whenever, Whenever-some, ◌≡◌, refl, arith,
}
use mros_w24_solution.Json.{JsonLib, Json}
use mros_w24_solution.Rpc.Handshake.{
  waiting_acknowledgement, sending_message, waiting_clear, receiving, timed_out, client_threw,
  connection_threw, Setup, run_connecting_callback, sending_acknowledgement, waiting_message,
  sending_clear, serving, calling_back, Ends, acknowledgement, clear, client_reads, client_step_at,
  client_step, connection_reads, connection_step_at, connection_step, time_out_at, time_out, Who,
  client_goes, connection_goes, time_passes, step, Reach, start, next,
}

module _ ⦃json : JsonLib⦄ where
  -- Every state that a handshake with a message comes to.
  pub data Known (setup : Setup) (message : Json) : Ends → Type 0 where
    fresh : Known setup message (record {
      client = waiting_acknowledgement;
      connection = sending_acknowledgement;
      to_client = [];
      to_connection = [];
      is_connected = false;
      called_with = [];
    })
    acknowledged : Known setup message (record {
      client = waiting_acknowledgement;
      connection = waiting_message;
      to_client = acknowledgement ∷ [];
      to_connection = [];
      is_connected = false;
      called_with = [];
    })
    read : Known setup message (record {
      client = sending_message;
      connection = waiting_message;
      to_client = [];
      to_connection = [];
      is_connected = true;
      called_with = [];
    })
    introduced : Known setup message (record {
      client = waiting_clear;
      connection = waiting_message;
      to_client = [];
      to_connection = message ∷ [];
      is_connected = true;
      called_with = [];
    })
    heard : Known setup message (record {
      client = waiting_clear;
      connection = calling_back message;
      to_client = [];
      to_connection = [];
      is_connected = true;
      called_with = [];
    })
    called :
        (l : List Json)
        → l ≡ (if setup.callback_set then message ∷ [] else [])
        → Known setup message (record {
          client = waiting_clear;
          connection = sending_clear;
          to_client = [];
          to_connection = [];
          is_connected = true;
          called_with = l;
        })
    cleared :
        (l : List Json)
        → l ≡ (if setup.callback_set then message ∷ [] else [])
        → Known setup message (record {
          client = waiting_clear;
          connection = serving;
          to_client = clear ∷ [];
          to_connection = [];
          is_connected = true;
          called_with = l;
        })
    started :
        (l : List Json)
        → l ≡ (if setup.callback_set then message ∷ [] else [])
        → Known setup message (record {
          client = receiving;
          connection = serving;
          to_client = [];
          to_connection = [];
          is_connected = true;
          called_with = l;
        })
    late : Known setup message (record {
      client = timed_out;
      connection = sending_acknowledgement;
      to_client = [];
      to_connection = [];
      is_connected = false;
      called_with = [];
    })
    alone : Known setup message (record {
      client = timed_out;
      connection = waiting_message;
      to_client = acknowledgement ∷ [];
      to_connection = [];
      is_connected = false;
      called_with = [];
    })
    unread_first :
        setup.is_readable acknowledgement ≡ false
        → Known setup message (record {
          client = client_threw;
          connection = waiting_message;
          to_client = [];
          to_connection = [];
          is_connected = false;
          called_with = [];
        })
    unread :
        setup.is_readable message ≡ false
        → Known setup message (record {
          client = waiting_clear;
          connection = connection_threw;
          to_client = [];
          to_connection = [];
          is_connected = true;
          called_with = [];
        })
    refused :
        (setup.callback_set && setup.callback_throws message) ≡ true
        → Known setup message (record {
          client = waiting_clear;
          connection = connection_threw;
          to_client = [];
          to_connection = [];
          is_connected = true;
          called_with = message ∷ [];
        })
    unread_last :
        (l : List Json)
        → l ≡ (if setup.callback_set then message ∷ [] else [])
        → setup.is_readable clear ≡ false
        → Known setup message (record {
          client = client_threw;
          connection = serving;
          to_client = [];
          to_connection = [];
          is_connected = true;
          called_with = l;
        })

  Known-if :
      {setup : Setup} {message : Json} (b : Bool) (s t : Ends)
      → (b ≡ true → Known setup message s)
      → (b ≡ false → Known setup message t)
      → Known setup message (if b then s else t)
  Known-if true s t h k = h refl
  Known-if false s t h k = k refl

  pub step-Known :
      (setup : Setup) (message : Json) (who : Who) (s : Ends)
      → Known setup message s
      → Whenever (Known setup message) (step setup message who s)
  unfolding step client_step client_step_at client_reads connection_step connection_step_at
      connection_reads run_connecting_callback time_out time_out_at
  step-Known setup message client_goes s fresh = tt
  step-Known setup message client_goes s acknowledged =
      Known-if (setup.is_readable acknowledgement) _ _ (λ e. read) unread_first
  step-Known setup message client_goes s read = introduced
  step-Known setup message client_goes s introduced = tt
  step-Known setup message client_goes s heard = tt
  step-Known setup message client_goes s (called l q) = tt
  step-Known setup message client_goes s (cleared l q) =
      Known-if (setup.is_readable clear) _ _ (λ e. started l q) (unread_last l q)
  step-Known setup message client_goes s (started l q) = tt
  step-Known setup message client_goes s late = tt
  step-Known setup message client_goes s alone = tt
  step-Known setup message client_goes s (unread_first q) = tt
  step-Known setup message client_goes s (unread q) = tt
  step-Known setup message client_goes s (refused q) = tt
  step-Known setup message client_goes s (unread_last l e q) = tt
  step-Known setup message connection_goes s fresh = acknowledged
  step-Known setup message connection_goes s acknowledged = tt
  step-Known setup message connection_goes s read = tt
  step-Known setup message connection_goes s introduced =
      Known-if (setup.is_readable message) _ _ (λ e. heard) unread
  step-Known setup message connection_goes s heard =
      Known-if setup.callback_set _ _
        (λ set.
          Known-if (setup.callback_throws message) _ _
            (λ throws. refused (ground (arith, set, throws)))
            (λ returns. called (message ∷ []) (rw set refl)))
        (λ none_set. called [] (rw none_set refl))
  step-Known setup message connection_goes s (called l q) = cleared l q
  step-Known setup message connection_goes s (cleared l q) = tt
  step-Known setup message connection_goes s (started l q) = tt
  step-Known setup message connection_goes s late = alone
  step-Known setup message connection_goes s alone = tt
  step-Known setup message connection_goes s (unread_first q) = tt
  step-Known setup message connection_goes s (unread q) = tt
  step-Known setup message connection_goes s (refused q) = tt
  step-Known setup message connection_goes s (unread_last l e q) = tt
  step-Known setup message time_passes s fresh = late
  step-Known setup message time_passes s acknowledged = tt
  step-Known setup message time_passes s read = tt
  step-Known setup message time_passes s introduced = tt
  step-Known setup message time_passes s heard = tt
  step-Known setup message time_passes s (called l q) = tt
  step-Known setup message time_passes s (cleared l q) = tt
  step-Known setup message time_passes s (started l q) = tt
  step-Known setup message time_passes s late = tt
  step-Known setup message time_passes s alone = tt
  step-Known setup message time_passes s (unread_first q) = tt
  step-Known setup message time_passes s (unread q) = tt
  step-Known setup message time_passes s (refused q) = tt
  step-Known setup message time_passes s (unread_last l e q) = tt

  pub Reach-Known :
      {setup : Setup} {message : Json} {s : Ends} → Reach setup message s → Known setup message s
  Reach-Known start = fresh
  Reach-Known {setup} {message} (next {s} {s'} who before done) =
      Whenever-some (Known setup message) (step setup message who s)
        (step-Known setup message who s (Reach-Known before)) done

  Known-started :
      {setup : Setup} {message : Json} (s : Ends)
      → Known setup message s
      → s.client ≡ receiving
      → (s.called_with ≡ (if setup.callback_set then message ∷ [] else []))
        × (s.connection ≡ serving)
        × (s.is_connected ≡ true)
  Known-started s fresh e = absurd (ground arith)
  Known-started s acknowledged e = absurd (ground arith)
  Known-started s read e = absurd (ground arith)
  Known-started s introduced e = absurd (ground arith)
  Known-started s heard e = absurd (ground arith)
  Known-started s (called l q) e = absurd (ground arith)
  Known-started s (cleared l q) e = absurd (ground arith)
  Known-started s (started l q) e = (q, refl, refl)
  Known-started s late e = absurd (ground arith)
  Known-started s alone e = absurd (ground arith)
  Known-started s (unread_first q) e = absurd (ground arith)
  Known-started s (unread q) e = absurd (ground arith)
  Known-started s (refused q) e = absurd (ground arith)
  Known-started s (unread_last l q z) e = absurd (ground arith)

  -- When `connectToServer` has returned, the connecting callback of the other end, if it has one, has
  -- been called exactly once, with the client's message, and the connection is ready for requests.
  pub Reach-started :
      {setup : Setup} {message : Json} {s : Ends}
      → Reach setup message s
      → s.client ≡ receiving
      → (s.called_with ≡ (if setup.callback_set then message ∷ [] else []))
        × (s.connection ≡ serving)
        × (s.is_connected ≡ true)
  Reach-started {s = s} r e = Known-started s (Reach-Known r) e
