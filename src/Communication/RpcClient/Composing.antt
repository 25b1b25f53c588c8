-- ===== src/Communication/RpcClient/Composing.antt =====
-- src/communication/in_memory_rpc_client.rs: what the call options make of a request's builder.
use up_rust.Prelude.{String, ◌≡◌, ap, sym, ◌∙◌, Option, none, some, returns, assert-eq-returns}
use up_rust.Proto.{Uuid, UUri, Descriptors}
use up_rust.Uuid
use up_rust.Builder
use up_rust.Builder.{UMessageBuilder}
use up_rust.Builder.Build.{returned}
use up_rust.Transport.{UTransport, LocalUriProvider}
use up_rust.Communication.{CallOptions, UPayload, with_optional_priority}
use up_rust.Communication.Messages.{priority_of, filled, priority_stored}
use up_rust.Communication.RpcClient.{Client, with_optional_token}

abbrev token_of : Option String → Option String → Option String
token_of none default = default
token_of (some token) default = some token

-- The builder of a call's request.
abbrev pub requesting : UUri → UUri → CallOptions → Uuid → Option UPayload → UMessageBuilder
requesting method reply_to options id payload =
    let b = Builder.request method reply_to options.ttl in
    filled
      (record b {
        message_id = some id;
        token = token_of options.token b.token;
        priority = priority_of options.priority b.priority;
      })
      payload

-- What the options make of a request's builder.
abbrev pub composed : UMessageBuilder → CallOptions → Uuid → UMessageBuilder
composed b options id = record b {
  message_id = some id;
  token = token_of options.token b.token;
  priority = priority_of options.priority b.priority;
}

module _ (proto : Descriptors) {S : Type 0} (transport : UTransport (Client S))
    (provider : LocalUriProvider) where
  identified_lem :
      (id : Uuid) (b c : UMessageBuilder)
      → Builder.with_message_id id b ≡ returns c
      → c ≡ record b { message_id = some id }
  unfolding Builder.with_message_id
  identified_lem id b c h = sym (returned ((assert-eq-returns (Uuid.is_uprotocol_uuid id) _ _ h).1))

  authorized_lem :
      (token : Option String) (b c : UMessageBuilder)
      → with_optional_token proto transport provider token b ≡ returns c
      → c ≡ record b { token = token_of token b.token }
  unfolding Builder.with_token
  authorized_lem none b c h = sym (returned h)
  authorized_lem (some token) b c h = sym (returned ((assert-eq-returns _ _ _ h).1))

  pub composed_lem :
      (options : CallOptions) (i : Uuid) (b c d f : UMessageBuilder)
      → Builder.with_message_id i b ≡ returns c
      → with_optional_token proto transport provider options.token c ≡ returns d
      → with_optional_priority proto options.priority d ≡ returns f
      → f ≡ composed b options i
  composed_lem options i b c d f h k g =
      priority_stored proto options.priority d f g
      ∙ ap {A = UMessageBuilder}
          (λ x. record x { priority = priority_of options.priority x.priority })
          (authorized_lem options.token c d k)
      ∙ ap {A = UMessageBuilder}
          (λ x. record x {
            token = token_of options.token x.token;
            priority = priority_of options.priority x.priority;
          })
          (identified_lem i b c h)
