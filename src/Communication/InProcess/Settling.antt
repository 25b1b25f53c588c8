-- ===== src/Communication/InProcess/Settling.antt =====
-- src/local_transport.rs: the deliveries of a message come to an end.
use up_rust.Prelude.{ℕ, ◌+◌, ◌≤◌, ◌≡◌, List, [], length}
use up_rust.Proto.{UStatus, UMessage, Descriptors}
use up_rust.Uuid.{Entropy}
use up_rust.Uuid.Build.{IsEntropy}
use up_rust.Message.Extraction.{Codec}
use up_rust.LocalTransport.{LocalTransport, RegisteredListener, matches_msg, dispatch_to}
use up_rust.LocalTransport
use up_rust.Communication.RpcServer
use up_rust.Communication.RpcServer.{RequestHandler, outcome, timeout_of, payload_of}
use up_rust.Communication.RpcServer.Answering.{CanWrite}
use up_rust.Communication.InProcess.{
  Listener, request_listener, response_listener, application, Bus, Process,
}
use up_rust.Communication.InProcess.Weights.{weight, total}

-- An application's listener sends nothing while it receives a message.
pub data IsSilent : Listener → Type 0 where
  server : (handler : RequestHandler) → IsSilent (request_listener handler)
  client : IsSilent response_listener
  silent :
      (sends : UMessage → List UMessage)
      → ((m : UMessage) → sends m ≡ [])
      → IsSilent (application sends)

-- What a server's listener sends when it receives a message, over the local transport.
module _ (proto : Descriptors) (codec : Codec UStatus) (write : CanWrite codec) (e : Entropy)
    (handler : RequestHandler) (t : LocalTransport) where
  -- The message that was sent lies within what the received one was counted as.
  abbrev Sends : UMessage → Bus → Type 0
  Sends m (u, sent) =
      (u ≡ t) × (total proto (length t.listeners) sent + 1 ≤ weight proto (length t.listeners) m)

module _ (proto : Descriptors) (codec : Codec UStatus) (write : CanWrite codec)
    (entropy : Bus → Entropy) (random : (bus : Bus) → IsEntropy (entropy bus))
    (listeners : ℕ → Listener) (all_silent : (k : ℕ) → IsSilent (listeners k)) where
  -- One delivery leaves fewer to come.
  abbrev Delivers : UMessage → List (ℕ × UMessage) → LocalTransport → Process → Type 0
  Delivers m rest t (l, (u, pending)) =
      (u ≡ t)
      × (total proto (length t.listeners) pending + 1
          ≤ weight proto (length t.listeners) m + total proto (length t.listeners) rest)
