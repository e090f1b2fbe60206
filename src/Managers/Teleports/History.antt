-- ===== src/Managers/Teleports/History.antt =====
-- The pending requests of src/core/teleport_manager.cpp over any calls.
use mcx.Prelude.{
  ℕ, ◌+◌, ◌-◌, ◌*◌, ◌/◌, ◌^◌, ◌<◌, ◌≡◌, refl, sym, ap, ◌∙◌, subst, inl, inr, ◌⊎◌, ◌≢◌, false, none,
  some, List, [], ◌∷◌, ◌++◌, All, Bool-cases, Option-cases, arith, ltb, nat_eq, text_eq,
  text_eq_iff, text_key,
}
use mcx.Prelude.Text.{Text}
use mcx.Managers.Teleports.{TeleportRequest, TeleportManager, cancel_teleport}
use mcx.Managers.Teleports.Requests.{
  IsValid, Call, requests, accepts, denies, cancels, clears, step, step-IsValid, step-After,
  pending, lookup-cancel_first,
}

-- What a call must not be for a request that is sent to `u` to stay: another request to `u`, an answer
-- of `u`, or a clearing 61 seconds after it or later.
abbrev pub Spares : Text → TeleportRequest → Call → Type 0
Spares u req (requests now p t) = t ≢ u
Spares u req (accepts t) = t ≢ u
Spares u req (denies t) = t ≢ u
Spares u req (cancels p) = Unit
Spares u req (clears now) = now < req.timestamp + 61 * 10 ^ 9

-- The call of RequestTeleport that leaves the request.
abbrev pub call_of : Text → TeleportRequest → Call
call_of u req = requests req.timestamp req.requester_id u

none-some : {r : TeleportRequest} → none ≡ some r → ⊥
none-some e = cc

some-inj : {a b : TeleportRequest} → some a ≡ some b → a ≡ b
some-inj e = cc

apart : (t u : Text) → t ≢ u → text_eq t u ≡ false
apart t u n = ground (arith, n, text_eq_iff t u)

unequal : (t u : Text) → text_eq t u ≡ false → t ≢ u
unequal t u h e = ground (arith, h, (text_eq_iff t u).1 e)

-- What a call must not be for the request to be sure to stay: besides, its player must not cancel.
abbrev pub Keeps : Text → TeleportRequest → Call → Type 0
Keeps u req (requests now p t) = Spares u req (requests now p t)
Keeps u req (accepts t) = Spares u req (accepts t)
Keeps u req (denies t) = Spares u req (denies t)
Keeps u req (cancels p) = req.requester_id ≢ p
Keeps u req (clears now) = Spares u req (clears now)

-- Some call left the request, and those behind it spare it.
abbrev pub IsSent : Text → TeleportRequest → List Call → Type 0
IsSent u req cs =
    (before : List Call) × (after : List Call) × (cs ≡ before ++ (call_of u req ∷ after))
    × All (Spares u req) after

module _ {Double : Type 0} where
  -- A request that is pending after a call was sent by it, or was pending before.
  origin :
      (u : Text) (req : TeleportRequest) (c : Call) (m : TeleportManager Double)
      → IsValid m
      → pending u (step c m) ≡ some req
      → (c ≡ call_of u req) ⊎ ((pending u m ≡ some req) × Spares u req c)
  origin u req (requests now p t) m k h =
      let e = step-After u (requests now p t) m k in
      elim (Bool-cases (text_eq t u)) [
        | inl same ↦
            let sent : record { requester_id = p; target_id = t; timestamp = now } ≡ req =
              some-inj (sym (e ∙ rw same refl) ∙ h) in
            inl (
              ap (λ (r : TeleportRequest). requests r.timestamp r.requester_id t) sent
              ∙ ap (requests req.timestamp req.requester_id) ((text_eq_iff t u).0 same))
        | inr other ↦ inr (sym (e ∙ rw other refl) ∙ h, unequal t u other)
      ]
  origin u req (accepts t) m k h =
      let e = step-After u (accepts t) m k in
      elim (Bool-cases (text_eq t u)) [
        | inl same ↦ absurd (none-some (sym (e ∙ rw same refl) ∙ h))
        | inr other ↦ inr (sym (e ∙ rw other refl) ∙ h, unequal t u other)
      ]
  origin u req (denies t) m k h =
      let e = step-After u (denies t) m k in
      elim (Bool-cases (text_eq t u)) [
        | inl same ↦ absurd (none-some (sym (e ∙ rw same refl) ∙ h))
        | inr other ↦ inr (sym (e ∙ rw other refl) ∙ h, unequal t u other)
      ]
  origin u req (cancels p) m k h = elim (step-After u (cancels p) m k).1 [
    | inl same ↦ inr (sym same ∙ h, tt)
    | inr (gone, by_player) ↦ absurd (none-some (sym gone ∙ h))
  ]
  origin u req (clears now) m k h =
      let e = step-After u (clears now) m k in
      elim (Option-cases (pending u m)) [
        | inl absent ↦ absurd (none-some (sym (e ∙ rw absent refl) ∙ h))
        | inr (r, there) ↦ elim (Bool-cases (ltb 60 ((now - r.timestamp) / 10 ^ 9))) [
          | inl old ↦ absurd (none-some (sym (e ∙ rw (there, old) refl) ∙ h))
          | inr fresh ↦
              let same : r ≡ req = some-inj (sym (e ∙ rw (there, fresh) refl) ∙ h) in
              inr (
                there ∙ ap (λ (x : TeleportRequest). some x) same,
                subst (λ (x : TeleportRequest). now < x.timestamp + 61 * 10 ^ 9) same
                    (ground (arith, fresh)),
              )
        ]
      ]

  kept :
      (u : Text) (req : TeleportRequest) (c : Call) (m : TeleportManager Double)
      → IsValid m
      → pending u m ≡ some req
      → Keeps u req c
      → pending u (step c m) ≡ some req
  unfolding cancel_teleport
  kept u req (requests now p t) m k h n = step-After u (requests now p t) m k ∙ rw (apart t u n) h
  kept u req (accepts t) m k h n = step-After u (accepts t) m k ∙ rw (apart t u n) h
  kept u req (denies t) m k h n = step-After u (denies t) m k ∙ rw (apart t u n) h
  kept u req (cancels p) m k h n = lookup-cancel_first p u req m.pending_requests h n
  kept u req (clears now) m k h n =
      let fresh : ltb 60 ((now - req.timestamp) / 10 ^ 9) ≡ false = ground (arith, n) in
      step-After u (clears now) m k ∙ rw (h, fresh) refl

  unfoldable pub steps : List Call → TeleportManager Double → TeleportManager Double
  steps [] m = m
  steps (c ∷ cs) m = steps cs (step c m)

  steps-origin :
      (u : Text) (req : TeleportRequest) (cs : List Call) (m : TeleportManager Double)
      → IsValid m
      → pending u (steps cs m) ≡ some req
      → IsSent u req cs ⊎ ((pending u m ≡ some req) × All (Spares u req) cs)
  unfolding steps
  steps-origin u req [] m k h = inr (h, tt)
  steps-origin u req (c ∷ cs) m k h =
      elim (steps-origin u req cs (step c m) (step-IsValid c m k) h) [
        | inl (before, after, e, spared) ↦ inl (c ∷ before, after, ap (λ l. c ∷ l) e, spared)
        | inr (there, spared) ↦ elim (origin u req c m k there) [
          | inl sent ↦ inl ([], cs, ap (λ x. x ∷ cs) sent, spared)
          | inr (old, one) ↦ inr (old, (one, spared))
        ]
      ]

  steps-kept :
      (u : Text) (req : TeleportRequest) (cs : List Call) (m : TeleportManager Double)
      → IsValid m
      → pending u m ≡ some req
      → All (Keeps u req) cs
      → pending u (steps cs m) ≡ some req
  unfolding steps
  steps-kept u req [] m k h n = h
  steps-kept u req (c ∷ cs) m k h n =
      steps-kept u req cs (step c m) (step-IsValid c m k) (kept u req c m k h n.0) n.1

  steps-sent :
      (u p : Text) (now : ℕ) (before after : List Call) (m : TeleportManager Double)
      → IsValid m
      → let req : TeleportRequest = record { requester_id = p; target_id = u; timestamp = now } in
        All (Keeps u req) after → pending u (steps (before ++ (call_of u req ∷ after)) m) ≡ some req
  unfolding steps
  steps-sent u p now [] after m k n =
      let req : TeleportRequest = record { requester_id = p; target_id = u; timestamp = now } in
      let c = call_of u req in
      steps-kept u req after (step c m) (step-IsValid c m k)
        (step-After u c m k ∙ rw ((text_eq_iff u u).1 refl) refl) n
  steps-sent u p now (c ∷ before) after m k n =
      steps-sent u p now before after (step c m) (step-IsValid c m k) n

  -- Over any calls on a manager in which each request stands under its target, once: a request that
  -- is pending for a player was sent by one of them, or was pending before, and behind that no other
  -- request was sent to the player, the player gave no answer, and no clearing came 61 seconds after
  -- it or later. And a request that is sent stays pending through any calls that are none of these
  -- and no cancellation by the one who sent it.
  pub steps-pending :
      (u p : Text) (now : ℕ) (req : TeleportRequest) (cs before after : List Call)
      (m : TeleportManager Double)
      → IsValid m
      → let sent : TeleportRequest = record { requester_id = p; target_id = u; timestamp = now } in
        All (Keeps u sent) after
        → (pending u (steps cs m) ≡ some req
            → IsSent u req cs ⊎ ((pending u m ≡ some req) × All (Spares u req) cs))
          × (pending u (steps (before ++ (call_of u sent ∷ after)) m) ≡ some sent)
  steps-pending u p now req cs before after m k n =
      (steps-origin u req cs m k, steps-sent u p now before after m k n)
