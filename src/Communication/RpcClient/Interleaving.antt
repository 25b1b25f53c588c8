-- ===== src/Communication/RpcClient/Interleaving.antt =====
-- src/communication/in_memory_rpc_client.rs: the calls of one client in any order. A call opens a
-- channel, its response may be received, and it gives up its pending request where the time is up.
use up_rust.Prelude.{
  ℕ, ◌+◌, ◌≤◌, ◌≡◌, refl, ap, sym, subst, ◌∙◌, inl, inr, true, false, if_true, if_false, Bool-cases,
  Option-cases, none, some, List, [], ◌∷◌, length, All, ok, ◌==◌, ==_iff, arith,
}
use up_rust.Proto.{
  EnumOrUnknown, known, unknown, UMessageType, Uuid, UMessage, type_eq, type_eq_iff, enum_value_or,
  default_type,
}
use up_rust.LocalTransport.Deliveries.{received}
use up_rust.Communication.RpcClient.{
  uuid_eq, ResponseListener, sender, without, try_add_pending_request, remove_pending_request,
  handle_response, on_receive,
}
use up_rust.Communication.RpcClient.Counting.{
  owner, waiting, times, IsOwned, IsAnswer, uuid_eq_sound, waiting-without, waiting-without_bound,
  times-without_bound, IsOwned-without, times-sender, owner_of, IsOwned-grows, IsAnswer-grows,
}
use up_rust.Communication.RpcClient.Pending.{
  pending, IsResponseTo, try_add_vacant, try_add_taken, try_add_poisoned,
}

-- A client's listener with the request IDs for which channels were opened.
abbrev pub Calls : Type 0
Calls = ResponseListener × List Uuid

pub data Step : Calls → Calls → Type 0 where
  opening :
      (id : Uuid) (l : ResponseListener) (opened : List Uuid)
      → (try_add_pending_request id (length opened) l).0 ≡ ok tt
      → Step (l, opened) ((try_add_pending_request id (length opened) l).1, id ∷ opened)
  receiving :
      (m : UMessage) (l : ResponseListener) (opened : List Uuid)
      → Step (l, opened) (on_receive m l, opened)
  giving_up :
      (id : Uuid) (l : ResponseListener) (opened : List Uuid)
      → Step (l, opened) (remove_pending_request id l, opened)
  poisoning :
      (l : ResponseListener) (opened : List Uuid)
      → Step (l, opened) (record l { poisoned = true }, opened)

pub data Reachable : Calls → Type 0 where
  start : Reachable (record { poisoned = false; pending_requests = []; delivered = [] }, [])
  step : (calls after : Calls) → Reachable calls → Step calls after → Reachable after

-- What holds whatever the order of the calls.
pub record Exclusive (l : ResponseListener) (opened : List Uuid) : Type 0 where
  pub once : (c : ℕ) → received c l.delivered + waiting c l.pending_requests ≤ 1
  pub fresh :
      (c : ℕ) → length opened ≤ c → received c l.delivered + waiting c l.pending_requests ≡ 0
  pub distinct : (id : Uuid) → times id l.pending_requests ≤ 1
  pub owned : All (IsOwned opened) l.pending_requests
  pub answers : All (IsAnswer opened) l.delivered

-- What a message does that the listener receives: nothing, or it is sent into the channel of the
-- request to which it is a response.
data Received (m : UMessage) (l : ResponseListener) : Type 0 where
  ignored : on_receive m l ≡ l → Received m l
  forwarded :
      (id : Uuid) (c : ℕ)
      → IsResponseTo id m
      → sender id l.pending_requests ≡ some c
      → on_receive m l ≡ record l {
        pending_requests = without id l.pending_requests;
        delivered = (c, m) ∷ l.delivered;
      }
      → Received m l

response_type :
    (t : EnumOrUnknown UMessageType)
    → type_eq (enum_value_or t default_type) UMessageType.response ≡ true
    → t ≡ known UMessageType.response
response_type (known t) h = ap known ((type_eq_iff t UMessageType.response).0 h)
response_type (unknown n) h = cc

handled :
    (id : Uuid) (m : UMessage) (l : ResponseListener)
    → IsResponseTo id m
    → on_receive m l ≡ handle_response id m l
    → Received m l
unfolding handle_response
handled id m l response is = elim (Bool-cases l.poisoned) [
  | inl poisoned ↦ ignored (is ∙ if_true _ poisoned)
  | inr working ↦ elim (Option-cases (sender id l.pending_requests)) [
    | inl vacant ↦ ignored (is ∙ if_false _ working ∙ rw vacant refl)
    | inr (c, found) ↦ forwarded id c response found (is ∙ if_false _ working ∙ rw found refl)
  ]
]

Received-on_receive : (m : UMessage) (l : ResponseListener) → Received m l
unfolding on_receive
Received-on_receive m l = elim (Option-cases m.attributes) [
  | inl missing ↦ ignored (rw missing refl)
  | inr (a, there) ↦
      elim (Bool-cases (type_eq (enum_value_or a.type_ default_type) UMessageType.response)) [
        | inl response ↦ elim (Option-cases a.reqid) [
          | inl missing ↦ ignored (rw there (rw response (rw missing refl)))
          | inr (id, has_id) ↦
              handled id m l
                (record {
                  attributes = a;
                  same = there;
                  type_ = response_type a.type_ response;
                  reqid = has_id;
                })
                (rw there (rw response (rw has_id refl)))
        ]
        | inr other ↦ ignored (rw there (rw other refl))
      ]
]

pending-Exclusive :
    (id : Uuid) (l : ResponseListener) (opened : List Uuid)
    → sender id l.pending_requests ≡ none
    → Exclusive l opened
    → Exclusive (pending id (length opened) l) (id ∷ opened)
pending-Exclusive id l opened vacant h = record {
  once = λ c.
      let before = h.once c in
      let new = h.fresh c in
      elim (Bool-cases (length opened == c)) [
        | inl is ↦
            let same = (==_iff (length opened) c).0 is in
            let unused = new (omega (arith, same)) in rw is (omega (arith, unused))
        | inr other ↦ rw other before
      ];
  fresh = λ c beyond.
      let unused = h.fresh c (omega (arith, beyond)) in
      elim (Bool-cases (length opened == c)) [
        | inl is ↦ absurd (omega (arith, beyond, (==_iff (length opened) c).0 is))
        | inr other ↦ rw other unused
      ];
  distinct = λ k.
      let before = h.distinct k in
      elim (Bool-cases (uuid_eq id k)) [
        | inl is ↦
            let none_yet =
              subst (λ j. times j l.pending_requests ≡ 0) (uuid_eq_sound id k is)
                (times-sender id l.pending_requests vacant) in
            rw is (omega (arith, none_yet))
        | inr other ↦ rw other before
      ];
  owned = (
    if_true (owner (length opened) opened) ((==_iff (length opened) (length opened)).1 refl),
    IsOwned-grows id opened l.pending_requests h.owned,
  );
  answers = IsAnswer-grows id opened l.delivered h.answers;
}

moved :
    (id : Uuid) (k : ℕ) (m : UMessage) (c : ℕ) (l : ResponseListener)
    → sender id l.pending_requests ≡ some k
    → received c ((k, m) ∷ l.delivered) + waiting c (without id l.pending_requests)
      ≡ received c l.delivered + waiting c l.pending_requests
moved id k m c l found =
    let same = waiting-without id c k l.pending_requests found in
    elim (Bool-cases (k == c)) [
      | inl is ↦ rw is (omega (arith, sym (ap (λ n. n) (rw is at same))))
      | inr other ↦ rw other (omega (arith, rw other at same))
    ]

forwarded-Exclusive :
    (id : Uuid) (k : ℕ) (m : UMessage) (l : ResponseListener) (opened : List Uuid)
    → IsResponseTo id m
    → sender id l.pending_requests ≡ some k
    → Exclusive l opened
    → Exclusive
        (record l {
          pending_requests = without id l.pending_requests;
          delivered = (k, m) ∷ l.delivered;
        })
        opened
forwarded-Exclusive id k m l opened response found h =
    let kept : (c : ℕ)
        → received c ((k, m) ∷ l.delivered) + waiting c (without id l.pending_requests)
          ≡ received c l.delivered + waiting c l.pending_requests =
      λ c. moved id k m c l found in
    record {
      once = λ c. subst (λ n. n ≤ 1) (sym (kept c)) (h.once c);
      fresh = λ c beyond. kept c ∙ h.fresh c beyond;
      distinct = λ j.
          let bound = times-without_bound id j l.pending_requests in
          let before = h.distinct j in omega (arith, bound, before);
      owned = IsOwned-without opened id l.pending_requests h.owned;
      answers = ((id, owner_of opened id k l.pending_requests found h.owned, response), h.answers);
    }

removed-Exclusive :
    (id : Uuid) (l : ResponseListener) (opened : List Uuid)
    → Exclusive l opened
    → Exclusive (record l { pending_requests = without id l.pending_requests }) opened
removed-Exclusive id l opened h = record {
  once = λ c.
      let bound = waiting-without_bound id c l.pending_requests in
      let before = h.once c in omega (arith, bound, before);
  fresh = λ c beyond.
      let bound = waiting-without_bound id c l.pending_requests in
      let before = h.fresh c beyond in omega (arith, bound, before);
  distinct = λ j.
      let bound = times-without_bound id j l.pending_requests in
      let before = h.distinct j in omega (arith, bound, before);
  owned = IsOwned-without opened id l.pending_requests h.owned;
  answers = h.answers;
}

Step-Exclusive :
    (calls after : Calls)
    → Step calls after
    → Exclusive (calls.0) (calls.1)
    → Exclusive (after.0) (after.1)
unfolding remove_pending_request
Step-Exclusive _ _ (opening id l opened done) h = elim (Bool-cases l.poisoned) [
  | inl poisoned ↦ cc (done, try_add_poisoned id (length opened) l poisoned)
  | inr working ↦ elim (Option-cases (sender id l.pending_requests)) [
    | inl vacant ↦
        subst (λ r. Exclusive (r.1) (id ∷ opened))
          (sym (try_add_vacant id (length opened) l working vacant))
          (pending-Exclusive id l opened vacant h)
    | inr (other, taken) ↦ cc (done, try_add_taken id (length opened) other l working taken)
  ]
]
Step-Exclusive _ _ (receiving m l opened) h = elim (Received-on_receive m l) [
  | ignored same ↦ subst (λ r. Exclusive r opened) (sym same) h
  | forwarded id c response found is ↦
      subst (λ r. Exclusive r opened) (sym is)
        (forwarded-Exclusive id c m l opened response found h)
]
Step-Exclusive _ _ (giving_up id l opened) h = elim (Bool-cases l.poisoned) [
  | inl poisoned ↦ subst (λ r. Exclusive r opened) (sym (if_true _ poisoned)) h
  | inr working ↦
      subst (λ r. Exclusive r opened) (sym (if_false _ working)) (removed-Exclusive id l opened h)
]
Step-Exclusive _ _ (poisoning l opened) h = record {
  once = h.once;
  fresh = h.fresh;
  distinct = h.distinct;
  owned = h.owned;
  answers = h.answers;
}

-- Whatever the order in which calls open channels, messages are received, calls give up, and the
-- lock is poisoned: a channel gets at most one response, and none while its request is pending;
-- what it gets is a response to the request for which it was opened; and no request ID is pending
-- twice.
pub Reachable-Exclusive : (calls : Calls) → Reachable calls → Exclusive (calls.0) (calls.1)
Reachable-Exclusive _ start = record {
  once = λ c. omega arith;
  fresh = λ c beyond. refl;
  distinct = λ id. omega arith;
  owned = tt;
  answers = tt;
}
Reachable-Exclusive after (step calls _ before s) =
    Step-Exclusive calls after s (Reachable-Exclusive calls before)
