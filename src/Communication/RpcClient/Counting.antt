-- ===== src/Communication/RpcClient/Counting.antt =====
-- src/communication/in_memory_rpc_client.rs: how often a channel and a request ID are pending, and
-- for which request a channel was opened.
use mathlib.Core.Bool.{and-eq-true_iff}
use up_rust.Prelude.{
  ℕ, ◌+◌, ◌≤◌, ◌<◌, ◌≡◌, refl, ap, sym, subst, ◌∙◌, inl, inr, true, if_true, if_false, Bool-cases,
  Option, none, some, List, [], ◌∷◌, length, All, ◌==◌, ==_iff, if◌then◌else◌, arith,
}
use up_rust.Proto.{Uuid, UMessage}
use up_rust.Communication.RpcClient.{uuid_eq, sender, without}
use up_rust.Communication.RpcClient.Pending.{IsResponseTo}

-- The request ID for which a channel was opened. Channels have the numbers from 0, the newest is
-- the first item's.
abbrev pub owner : ℕ → List Uuid → Option Uuid
owner c [] = none
owner c (id ∷ opened) = if c == length opened then some id else owner c opened

-- How often a channel is pending, and an ID.
abbrev pub waiting : ℕ → List (Uuid × ℕ) → ℕ
waiting c [] = 0
waiting c ((id, k) ∷ rest) = if k == c then waiting c rest + 1 else waiting c rest

abbrev pub times : Uuid → List (Uuid × ℕ) → ℕ
times reqid [] = 0
times reqid ((id, k) ∷ rest) = if uuid_eq id reqid then times reqid rest + 1 else times reqid rest

abbrev pub IsOwned : List Uuid → Uuid × ℕ → Type 0
IsOwned opened (id, c) = owner c opened ≡ some id

abbrev pub IsAnswer : List Uuid → ℕ × UMessage → Type 0
IsAnswer opened (c, m) = (id : Uuid) × (owner c opened ≡ some id) × IsResponseTo id m

pub uuid_eq_sound : (u v : Uuid) → uuid_eq u v ≡ true → u ≡ v
uuid_eq_sound u v h =
    let (msb, lsb) = (and-eq-true_iff _ _).0 h in
    let same_msb = (==_iff u.msb v.msb).0 msb in
    let same_lsb = (==_iff u.lsb v.lsb).0 lsb in λ i. record { msb = same_msb i; lsb = same_lsb i }

owner_bound :
    (c : ℕ) (id : Uuid) (opened : List Uuid) → owner c opened ≡ some id → c < length opened
owner_bound c id [] h = cc
owner_bound c id (x ∷ opened) h = elim (Bool-cases (c == length opened)) [
  | inl last ↦ let is = (==_iff c (length opened)).0 last in omega arith
  | inr other ↦
      let rest = owner_bound c id opened (sym (if_false (some x) other) ∙ h) in omega arith
]

owner_grows :
    (c : ℕ) (id new : Uuid) (opened : List Uuid)
    → owner c opened ≡ some id
    → owner c (new ∷ opened) ≡ some id
owner_grows c id new opened h = elim (Bool-cases (c == length opened)) [
  | inl last ↦
      let below = owner_bound c id opened h in
      absurd (omega (arith, below, (==_iff c (length opened)).0 last))
  | inr other ↦ if_false (some new) other ∙ h
]

-- A pending request that is found is the one to be removed.
pub waiting-without :
    (id : Uuid) (c k : ℕ) (ps : List (Uuid × ℕ))
    → sender id ps ≡ some k
    → waiting c (without id ps) + (if k == c then 1 else 0) ≡ waiting c ps
unfolding sender without
waiting-without id c k [] h = cc
waiting-without id c k ((x, j) ∷ ps) h = elim (Bool-cases (uuid_eq x id)) [
  | inl here ↦
      let found : some j ≡ some k = sym (if_true (sender id ps) here) ∙ h in
      let same : j ≡ k = cc in rw here (rw same (ground arith))
  | inr later ↦
      rw later
        (let rest = waiting-without id c k ps (sym (if_false (some j) later) ∙ h) in ground arith)
]

pub waiting-without_bound :
    (id : Uuid) (c : ℕ) (ps : List (Uuid × ℕ)) → waiting c (without id ps) ≤ waiting c ps
unfolding without
waiting-without_bound id c [] = omega arith
waiting-without_bound id c ((x, j) ∷ ps) =
    let rest = waiting-without_bound id c ps in
    elim (Bool-cases (uuid_eq x id)) [
      | inl here ↦ rw here (ground arith)
      | inr later ↦ rw later (ground arith)
    ]

pub times-without_bound :
    (id other : Uuid) (ps : List (Uuid × ℕ)) → times other (without id ps) ≤ times other ps
unfolding without
times-without_bound id other [] = omega arith
times-without_bound id other ((x, j) ∷ ps) =
    let rest = times-without_bound id other ps in
    elim (Bool-cases (uuid_eq x id)) [
      | inl here ↦ elim (Bool-cases (uuid_eq x other)) [
        | inl same ↦ rw here (rw same (omega arith))
        | inr apart ↦ rw here (rw apart (omega arith))
      ]
      | inr later ↦ elim (Bool-cases (uuid_eq x other)) [
        | inl same ↦ rw later (rw same (omega arith))
        | inr apart ↦ rw later (rw apart rest)
      ]
    ]

pub IsOwned-without :
    (opened : List Uuid) (id : Uuid) (ps : List (Uuid × ℕ))
    → All (IsOwned opened) ps
    → All (IsOwned opened) (without id ps)
unfolding without
IsOwned-without opened id [] h = tt
IsOwned-without opened id ((x, j) ∷ ps) (first, rest) = elim (Bool-cases (uuid_eq x id)) [
  | inl here ↦ rw here rest
  | inr later ↦ rw later (first, IsOwned-without opened id ps rest)
]

-- An ID that is not pending is there no time.
pub times-sender : (id : Uuid) (ps : List (Uuid × ℕ)) → sender id ps ≡ none → times id ps ≡ 0
unfolding sender
times-sender id [] h = refl
times-sender id ((x, j) ∷ ps) h = elim (Bool-cases (uuid_eq x id)) [
  | inl here ↦ cc (rw here at h)
  | inr later ↦ rw later (times-sender id ps (sym (if_false (some j) later) ∙ h))
]

pub owner_of :
    (opened : List Uuid) (id : Uuid) (c : ℕ) (ps : List (Uuid × ℕ))
    → sender id ps ≡ some c
    → All (IsOwned opened) ps
    → owner c opened ≡ some id
unfolding sender
owner_of opened id c [] h owned = cc
owner_of opened id c ((x, j) ∷ ps) h (first, rest) = elim (Bool-cases (uuid_eq x id)) [
  | inl here ↦
      let found : some j ≡ some c = sym (if_true (sender id ps) here) ∙ h in
      let same : j ≡ c = cc in
      subst (λ k. owner k opened ≡ some id) same (first ∙ ap some (uuid_eq_sound x id here))
  | inr later ↦ owner_of opened id c ps (sym (if_false (some j) later) ∙ h) rest
]

pub IsOwned-grows :
    (new : Uuid) (opened : List Uuid) (ps : List (Uuid × ℕ))
    → All (IsOwned opened) ps
    → All (IsOwned (new ∷ opened)) ps
IsOwned-grows new opened [] h = tt
IsOwned-grows new opened ((id, c) ∷ ps) (first, rest) =
    (owner_grows c id new opened first, IsOwned-grows new opened ps rest)

pub IsAnswer-grows :
    (new : Uuid) (opened : List Uuid) (ms : List (ℕ × UMessage))
    → All (IsAnswer opened) ms
    → All (IsAnswer (new ∷ opened)) ms
IsAnswer-grows new opened [] h = tt
IsAnswer-grows new opened ((c, m) ∷ ms) ((id, is, response), rest) =
    ((id, owner_grows c id new opened is, response), IsAnswer-grows new opened ms rest)
