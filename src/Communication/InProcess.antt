-- ===== src/Communication/InProcess.antt =====
-- src/local_transport.rs with the listeners of src/communication/in_memory_rpc_server.rs and
-- src/communication/in_memory_rpc_client.rs: the calls of `on_receive` that sending a message leads
-- to. `dispatch` awaits each of them, and a listener that sends a message awaits its dispatch, so
-- the deliveries of that message come before those that are left.
pub mod Weights
pub mod Settling
pub mod Connected
pub mod Relaying
pub mod Answered
pub mod Invocation
pub mod Unanswered
pub mod Subscription
use up_rust.Prelude.{
  ℕ, zero, suc, ◌+◌, ◌*◌, Option, none, some, List, [], ◌∷◌, ◌++◌, length, Run, returns, ◌==◌,
  if◌then◌else◌,
}
use up_rust.Prelude.Panicking.{◌>>=◌}
use up_rust.Proto.{UStatus, Uuid, UMessage, Descriptors}
use up_rust.Uuid.{Entropy}
use up_rust.Message.Extraction.{Codec}
use up_rust.LocalTransport
use up_rust.LocalTransport.{LocalTransport}
use up_rust.Communication.RpcServer
use up_rust.Communication.RpcServer.{RequestHandler}
use up_rust.Communication.RpcClient
use up_rust.Communication.RpcClient.{ResponseListener, Awaited, timed_out, closed, received, sender}

-- The implementors of `UListener`: a server's `RequestListener`, the client's `ResponseListener`,
-- and an application's listener, with the messages that it sends while it receives one.
pub data Listener : Type 0 where
  request_listener : RequestHandler → Listener
  response_listener : Listener
  application : (UMessage → List UMessage) → Listener

-- The transport with the deliveries that are to be made.
abbrev pub Bus : Type 0
Bus = LocalTransport × List (ℕ × UMessage)

-- The state of the client's listener and the transport's.
abbrev pub Process : Type 0
Process = ResponseListener × Bus

-- The response that was sent into a channel.
abbrev pub response_in : ℕ → List (ℕ × UMessage) → Awaited
response_in channel [] = timed_out
response_in channel ((k, m) ∷ rest) = if k == channel then received m else response_in channel rest

abbrev pub awaited_in : Option ℕ → ResponseListener → Awaited
awaited_in none l = closed
awaited_in (some channel) l = response_in channel l.delivered

-- The messages are sent one after the other; the deliveries of each come before those of the next.
unfoldable pub send_all : List UMessage → Bus → Bus
send_all [] bus = bus
send_all (m ∷ ms) bus = send_all ms ((LocalTransport.transport.send m bus).1)

module _ (proto : Descriptors) (codec : Codec UStatus) (entropy : Bus → Entropy)
    (listeners : ℕ → Listener) where
  abbrev before_the_rest : ResponseListener → List (ℕ × UMessage) → Bus → Process
  before_the_rest l rest (t, sent) = (l, (t, sent ++ rest))

  -- `RegisteredListener::on_receive`.
  unfoldable pub on_receive : Listener → UMessage → Process → Run Process
  unfolding RpcServer.on_receive RpcClient.on_receive send_all
  on_receive (request_listener handler) m (l, (t, rest)) =
      RpcServer.on_receive proto codec (entropy (t, rest)) LocalTransport.transport handler m
        (t, [])
      >>= λ bus. returns (before_the_rest l rest bus)
  on_receive response_listener m (l, bus) = returns (RpcClient.on_receive m l, bus)
  on_receive (application sends) m (l, (t, rest)) =
      returns (before_the_rest l rest (send_all (sends m) (t, [])))

  -- At most so many deliveries are made.
  unfoldable pub settle : ℕ → Process → Run Process
  unfolding on_receive
  settle zero p = returns p
  settle (suc n) (l, (t, [])) = returns (l, (t, []))
  settle (suc n) (l, (t, (k, m) ∷ rest)) =
      on_receive (listeners k) m (l, (t, rest)) >>= λ p. settle n p

  -- What a call gets that has sent its request: `send` awaits the deliveries, after which the
  -- response is in the call's channel, or the time passes without one.
  unfoldable pub wait : Uuid → Process → Run (Awaited × Process)
  unfolding settle sender
  wait id (l, (t, pending)) =
      settle (length pending * (length t.listeners + 1)) (l, (t, pending)) >>= λ (l_after, bus).
      returns (awaited_in (sender id l.pending_requests) l_after, (l_after, bus))
