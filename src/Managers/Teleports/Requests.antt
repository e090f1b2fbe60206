-- ===== src/Managers/Teleports/Requests.antt =====
-- The pending requests of src/core/teleport_manager.cpp.
use mcx.Prelude.{
  ℕ, ◌+◌, ◌-◌, ◌/◌, ◌^◌, ◌≡◌, refl, subst, inl, inr, ◌⊎◌, ◌≢◌, Bool-cases, Bool, false, ◌||◌,
  Option, none, some, [], ◌∷◌, arith, ltb, if◌then◌else◌, nat_eq, text_eq, text_eq_iff, text_key,
}
use mcx.Prelude.Text.{Text}
use mcx.Maps.{Map, lookup, lookup-insert, lookup-erase, size}
use mcx.Maps.Keyed.{IsKeyed, insert-IsKeyed, erase-IsKeyed}
use mcx.Managers.Teleports.{
  TeleportRequest, TeleportManager, cancel_first, is_expired, drop_expired, request_teleport,
  accept_teleport, deny_teleport, cancel_teleport, clear_expired_requests,
}

abbrev Requests : Type 0
Requests = Map Text TeleportRequest

abbrev IsByTarget : Requests → Type 0
IsByTarget = IsKeyed (λ (req : TeleportRequest). req.target_id)

-- Every pending request stands under its target, once.
abbrev pub IsValid : {Double : Type 0} → TeleportManager Double → Type 0
IsValid m = IsByTarget m.pending_requests

absent-drop_expired :
    (now : ℕ) (t : Text) (m : Requests) → lookup t m ≡ none → lookup t (drop_expired now m) ≡ none
unfolding lookup drop_expired
absent-drop_expired now t [] h = refl
absent-drop_expired now t ((j, req) ∷ m) h = ground (arith, absent-drop_expired now t m)

drop_expired-IsByTarget : (now : ℕ) (m : Requests) → IsByTarget m → IsByTarget (drop_expired now m)
unfolding drop_expired
drop_expired-IsByTarget now [] k = tt
drop_expired-IsByTarget now ((j, req) ∷ m) k =
    ground (arith, drop_expired-IsByTarget now m k.2, absent-drop_expired now j m k.1)

absent-cancel_first :
    (p t : Text) (m : Requests) → lookup t m ≡ none → lookup t (cancel_first p m) ≡ none
unfolding lookup cancel_first
absent-cancel_first p t [] h = refl
absent-cancel_first p t ((j, req) ∷ m) h = ground (arith, absent-cancel_first p t m)

cancel_first-IsByTarget : (p : Text) (m : Requests) → IsByTarget m → IsByTarget (cancel_first p m)
unfolding cancel_first
cancel_first-IsByTarget p [] k = tt
cancel_first-IsByTarget p ((j, req) ∷ m) k =
    ground (arith, cancel_first-IsByTarget p m k.2, absent-cancel_first p j m k.1)

lookup-drop_expired :
    (now : ℕ) (t : Text) (m : Requests)
    → IsByTarget m
    → lookup t (drop_expired now m)
      ≡ elim (lookup t m) [ none ↦ none | some req ↦ if is_expired now req then none else some req ]
unfolding lookup drop_expired
lookup-drop_expired now t [] k = refl
lookup-drop_expired now t ((j, req) ∷ m) k =
    ground (
      arith,
      lookup-drop_expired now t m k.2,
      absent-drop_expired now j m k.1,
      k.1,
      text_eq_iff j t,
    )

-- Some pending request is by the player.
abbrev pub asks : Text → Map Text TeleportRequest → Bool
asks p [] = false
asks p ((target, req) ∷ rest) = text_eq req.requester_id p || asks p rest

size-cancel_first :
    (p : Text) (m : Requests) → size (cancel_first p m) + (if asks p m then 1 else 0) ≡ size m
unfolding cancel_first
size-cancel_first p [] = refl
size-cancel_first p ((j, req) ∷ m) = ground (arith, size-cancel_first p m)

pub lookup-cancel_first :
    (p u : Text) (req : TeleportRequest) (m : Requests)
    → lookup u m ≡ some req
    → req.requester_id ≢ p
    → lookup u (cancel_first p m) ≡ some req
unfolding lookup cancel_first
lookup-cancel_first p u req [] h ne = h
lookup-cancel_first p u req ((j, other) ∷ m) h ne =
    ground (arith, lookup-cancel_first p u req m, text_eq_iff other.requester_id p)

cancelled :
    (p u : Text) (m : Requests)
    → IsByTarget m
    → (lookup u (cancel_first p m) ≡ lookup u m)
      ⊎ ((lookup u (cancel_first p m) ≡ none)
          × ((req : TeleportRequest) × (lookup u m ≡ some req) × (req.requester_id ≡ p)))
unfolding lookup cancel_first
cancelled p u [] k = inl refl
cancelled p u ((j, req) ∷ m) k = elim (Bool-cases (text_eq req.requester_id p)) [
  | inl own ↦ elim (Bool-cases (text_eq j u)) [
    | inl here ↦
        let gone : lookup u m ≡ none =
          subst (λ x. lookup x m ≡ none) ((text_eq_iff j u).0 here) k.1 in
        rw (own, here) (inr (gone, (req, refl, (text_eq_iff req.requester_id p).0 own)))
    | inr there ↦ rw (own, there) (inl refl)
  ]
  | inr other ↦ elim (Bool-cases (text_eq j u)) [
    | inl here ↦ rw (other, here) (inl refl)
    | inr there ↦ rw (other, there) (cancelled p u m k.2)
  ]
]

-- The calls that change the pending requests.
pub data Call : Type 0 where
  requests : ℕ → Text → Text → Call
  accepts denies cancels : Text → Call
  clears : ℕ → Call

module _ {Double : Type 0} where
  abbrev pub step : Call → TeleportManager Double → TeleportManager Double
  step (requests now p t) = request_teleport now p t
  step (accepts t) = accept_teleport t
  step (denies t) = deny_teleport t
  step (cancels p) = cancel_teleport p
  step (clears now) = clear_expired_requests now

  -- Every call keeps each request under its target, and one for each target.
  pub step-IsValid : (c : Call) (m : TeleportManager Double) → IsValid m → IsValid (step c m)
  unfolding request_teleport accept_teleport deny_teleport cancel_teleport clear_expired_requests
  step-IsValid (requests now p t) m k =
      insert-IsKeyed (λ (req : TeleportRequest). req.target_id) t _ m.pending_requests refl k
  step-IsValid (accepts t) m k =
      ground
        (arith, erase-IsKeyed (λ (req : TeleportRequest). req.target_id) t m.pending_requests k)
  step-IsValid (denies t) m k =
      ground
        (arith, erase-IsKeyed (λ (req : TeleportRequest). req.target_id) t m.pending_requests k)
  step-IsValid (cancels p) m k = cancel_first-IsByTarget p m.pending_requests k
  step-IsValid (clears now) m k = drop_expired-IsByTarget now m.pending_requests k

  abbrev pub pending : Text → TeleportManager Double → Option TeleportRequest
  pending t m = lookup t m.pending_requests

  -- What is pending for the player `u` after a call on `m`.
  abbrev pub After : Text → TeleportManager Double → Call → Type 0
  After u m (requests now p t) = pending u (step (requests now p t) m) ≡ (
      if text_eq t u
      then some (record { requester_id = p; target_id = t; timestamp = now })
      else pending u m)
  After u m (accepts t) =
      pending u (step (accepts t) m) ≡ (if text_eq t u then none else pending u m)
  After u m (denies t) = pending u (step (denies t) m) ≡ (if text_eq t u then none else pending u m)
  After u m (cancels p) =
      (size (step (cancels p) m).pending_requests + (if asks p m.pending_requests then 1 else 0)
        ≡ size m.pending_requests)
      × ((pending u (step (cancels p) m) ≡ pending u m)
          ⊎ ((pending u (step (cancels p) m) ≡ none)
              × ((req : TeleportRequest) × (pending u m ≡ some req) × (req.requester_id ≡ p))))
  After u m (clears now) = pending u (step (clears now) m) ≡ elim (pending u m) [
    | none ↦ none
    | some req ↦ if ltb 60 ((now - req.timestamp) / 10 ^ 9) then none else some req
  ]

  -- The pending requests after each call: a request replaces an older one for the same target, an
  -- answer of either kind removes the one for its target and no other, a cancellation removes one
  -- request if its player has any, and that is one of the player, and clearing removes exactly those
  -- that are older than 60 whole seconds.
  pub step-After : (u : Text) (c : Call) (m : TeleportManager Double) → IsValid m → After u m c
  unfolding request_teleport accept_teleport deny_teleport cancel_teleport clear_expired_requests
      is_expired
  step-After u (requests now p t) m k = lookup-insert t u _ m.pending_requests
  step-After u (accepts t) m k =
      ground (arith, lookup-erase t u m.pending_requests, text_eq_iff t u)
  step-After u (denies t) m k = ground (arith, lookup-erase t u m.pending_requests, text_eq_iff t u)
  step-After u (cancels p) m k =
      (size-cancel_first p m.pending_requests, cancelled p u m.pending_requests k)
  step-After u (clears now) m k = lookup-drop_expired now u m.pending_requests k

  -- A cancellation leaves the requests of other players alone.
  cancel_teleport_others :
      (p u : Text) (req : TeleportRequest) (m : TeleportManager Double)
      → pending u m ≡ some req
      → req.requester_id ≢ p
      → pending u (cancel_teleport p m) ≡ some req
  unfolding cancel_teleport
  cancel_teleport_others p u req m h ne = lookup-cancel_first p u req m.pending_requests h ne
