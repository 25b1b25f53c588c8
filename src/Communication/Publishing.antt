-- ===== src/Communication/Publishing.antt =====
-- src/communication/default_pubsub.rs (`SimplePublisher`), src/communication/default_notifier.rs.
use up_rust.Prelude.{
  ℕ, Option, some, Result, ok, err, map_err, Run, returns, ◌++ˢ◌, ◌≡◌, ap, sym, ◌∙◌, >>=-eq-returns,
  Result-cases, inl, inr,
}
use up_rust.Prelude.Panicking.{◌>>=◌}
use up_rust.Proto.{UStatus, UUri, UMessage, Descriptors}
use up_rust.Uuid.{Entropy}
use up_rust.Uri
use up_rust.Builder
use up_rust.Builder.Build.{returned}
use up_rust.Message.{UMessageError}
use up_rust.Message
use up_rust.Transport.{UTransport, LocalUriProvider}
use up_rust.Communication.{CallOptions, UPayload, apply_common_options, build_message}
use up_rust.Communication.Messages.{IsMessageOf, build_message-apply_common_options}
use up_rust.Communication.Errors.{
  NotificationError, PubSubError, RegistrationError, registration_error_from, invalid_filter,
  notify_error, publish_error,
}

-- The result of a call on the transport, its error as an error of the client.
abbrev pub convert :
    {S E : Type 0} → (UStatus → E) → Result UStatus (Unit {0}) × S → Result E (Unit {0}) × S
convert f (r, s) = (map_err f r, s)

-- A client: the transport that it calls, over the transport's state, and its URIs.
module _ (proto : Descriptors) {S : Type 0} (transport : UTransport S)
    (uri_provider : LocalUriProvider) where
  -- `SimplePublisher`.
  abbrev publish_built : Result UMessageError UMessage → S → Result PubSubError (Unit {0}) × S
  publish_built (ok m) s = convert publish_error (transport.send m s)
  publish_built (err e) s = (
    err (
        PubSubError.invalid_argument
          ("failed to create Publish message from parameters: " ++ˢ Message.to_string e)),
    s,
  )

  unfoldable pub publish :
      Entropy → ℕ → CallOptions → Option UPayload → S → Run (Result PubSubError (Unit {0}) × S)
  publish entropy resource_id options payload s = do
    builder ←
        apply_common_options proto options (Builder.publish (uri_provider.resource_uri resource_id))
    built ← build_message proto entropy builder payload
    returns (publish_built built s)

  -- `SimpleNotifier`.
  abbrev notify_built : Result UMessageError UMessage → S → Result NotificationError (Unit {0}) × S
  notify_built (ok m) s = convert notify_error (transport.send m s)
  notify_built (err e) s = (err (NotificationError.invalid_argument (Message.to_string e)), s)

  unfoldable pub notify :
      Entropy
      → ℕ
      → UUri
      → CallOptions
      → Option UPayload
      → S
      → Run (Result NotificationError (Unit {0}) × S)
  notify entropy resource_id destination options payload s = do
    builder ←
        apply_common_options proto options
          (Builder.notification (uri_provider.resource_uri resource_id) destination)
    built ← build_message proto entropy builder payload
    returns (notify_built built s)

  abbrev if_concrete :
      Result Uri.UUriError (Unit {0})
      → Result RegistrationError (Unit {0}) × S
      → S
      → Result RegistrationError (Unit {0}) × S
  if_concrete (ok _) done s = done
  if_concrete (err e) done s = (err (invalid_filter (Uri.to_string e)), s)

  unfoldable pub start_listening : UUri → ℕ → S → Result RegistrationError (Unit {0}) × S
  start_listening topic listener s =
      if_concrete (Uri.verify_no_wildcards topic)
        (convert registration_error_from
          (transport.register_listener topic (some uri_provider.source_uri) listener s))
        s

  unfoldable pub stop_listening : UUri → ℕ → S → Result RegistrationError (Unit {0}) × S
  stop_listening topic listener s =
      if_concrete (Uri.verify_no_wildcards topic)
        (convert registration_error_from
          (transport.unregister_listener topic (some uri_provider.source_uri) listener s))
        s

-- What a client's call did: it sent one message and converted the transport's result, or it
-- failed with an error and left the transport alone.
pub data Outcome {S E : Type 0} (transport : UTransport S) (f : UStatus → E)
    (IsMessage : UMessage → Type 0) (s : S) (done : Result E (Unit {0}) × S) : Type 0 where
  sent :
      (m : UMessage)
      → IsMessage m
      → done ≡ convert f (transport.send m s)
      → Outcome transport f IsMessage s done
  refused : (e : E) → done ≡ (err e, s) → Outcome transport f IsMessage s done

module _ (proto : Descriptors) {S : Type 0} (transport : UTransport S)
    (uri_provider : LocalUriProvider) where
  -- A publisher whose call returns has sent one message, a valid publish message from the topic of
  -- the given resource ID with the options' values, the time-to-live as it is given and not
  -- capped, and the payload; or it has returned an error and sent nothing.
  pub publish-Outcome :
      (e : Entropy) (resource_id : ℕ) (options : CallOptions) (payload : Option UPayload) (s : S)
      (done : Result PubSubError (Unit {0}) × S)
      → publish proto transport uri_provider e resource_id options payload s ≡ returns done
      → Outcome transport publish_error
          (IsMessageOf proto
            (Builder.publish (uri_provider.resource_uri resource_id))
            options
            payload)
          s
          done
  unfolding publish
  publish-Outcome e resource_id options payload s done h =
      let start = Builder.publish (uri_provider.resource_uri resource_id) in
      let (builder, applied, rest) =
        >>=-eq-returns (apply_common_options proto options start) _ h in
      let (built, k, last) = >>=-eq-returns (build_message proto e builder payload) _ rest in
      let call : done ≡ publish_built proto transport uri_provider built s = sym (returned last) in
      elim (Result-cases built) [
        | inl (m, is) ↦
            sent m
              (build_message-apply_common_options proto e options payload start builder m applied
                (k ∙ ap returns is))
              (call ∙ ap (λ r. publish_built proto transport uri_provider r s) is)
        | inr (x, is) ↦
            refused _ (call ∙ ap (λ r. publish_built proto transport uri_provider r s) is)
      ]

  -- A notifier whose call returns has sent one message, a valid notification from the given
  -- resource to the destination with the options' values, the time-to-live as it is given and not
  -- capped, and the payload; or it has returned an error and sent nothing.
  pub notify-Outcome :
      (e : Entropy) (resource_id : ℕ) (destination : UUri) (options : CallOptions)
      (payload : Option UPayload) (s : S) (done : Result NotificationError (Unit {0}) × S)
      → notify proto transport uri_provider e resource_id destination options payload s
        ≡ returns done
      → Outcome transport notify_error
          (IsMessageOf proto
            (Builder.notification (uri_provider.resource_uri resource_id) destination)
            options
            payload)
          s
          done
  unfolding notify
  notify-Outcome e resource_id destination options payload s done h =
      let start = Builder.notification (uri_provider.resource_uri resource_id) destination in
      let (builder, applied, rest) =
        >>=-eq-returns (apply_common_options proto options start) _ h in
      let (built, k, last) = >>=-eq-returns (build_message proto e builder payload) _ rest in
      let call : done ≡ notify_built proto transport uri_provider built s = sym (returned last) in
      elim (Result-cases built) [
        | inl (m, is) ↦
            sent m
              (build_message-apply_common_options proto e options payload start builder m applied
                (k ∙ ap returns is))
              (call ∙ ap (λ r. notify_built proto transport uri_provider r s) is)
        | inr (x, is) ↦
            refused _ (call ∙ ap (λ r. notify_built proto transport uri_provider r s) is)
      ]
