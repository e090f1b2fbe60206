-- ===== src/Managers/Economy/Money.antt =====
-- Money in src/core/economy_manager.cpp: what transfers conserve, and when they are defined.
use mcx.Prelude.{
  ◌≡◌, inl, inr, Bool, true, false, none, some, arith, Option-cases, nat_eq, text_key,
}
use mcx.Prelude.Do.{◌>>=◌}
use mcx.Prelude.Text.{Text}
use mcx.Prelude.Int.{ℤ, pos, ◌+ℤ◌, ◌-ℤ◌, ◌≤ℤ◌, int_laws}
use mcx.Maps.{lookup, AllValues, AllValues-insert, AllValues-lookup}
use mcx.Maps.Sum.{sum_by, sum_by-insert, sum_by-insert_new, le-sum_by}
use mcx.Managers.Economy.{
  Defined, i64_max, Account, EconomyManager, deposit, withdraw, transfer, pay_out,
}

-- All the money of the accounts.
abbrev pub total : EconomyManager → ℤ
total e = sum_by (λ a. a.balance) e.accounts

-- No account is overdrawn.
abbrev pub IsSolvent : EconomyManager → Type 0
IsSolvent e = AllValues (λ a. pos 0 ≤ℤ a.balance) e.accounts

-- What a withdrawal of `x` from `e` may come to.
abbrev pub Withdrawn : EconomyManager → ℤ → Defined (Bool × EconomyManager) → Type 0
Withdrawn e x none = Unit
Withdrawn e x (some (true, e')) = (pos 1 ≤ℤ x) × (total e' ≡ total e -ℤ x)
Withdrawn e x (some (false, e')) = e' ≡ e

pub withdraw-Withdrawn : (p : Text) (x : ℤ) (e : EconomyManager) → Withdrawn e x (withdraw p x e)
unfolding withdraw
withdraw-Withdrawn p x e = elim (Option-cases (lookup p e.accounts)) [
  | inl new ↦ ground (arith, new)
  | inr (a, old) ↦
      let b : Account = record a { balance = a.balance -ℤ x } in
      grind (int_laws, old, sum_by-insert (λ a. a.balance) p b a e.accounts old)
]

abbrev Deposited : EconomyManager → ℤ → Defined (Bool × EconomyManager) → Type 0
Deposited e x none = Unit
Deposited e x (some (true, e')) = total e' ≡ total e +ℤ x
Deposited e x (some (false, e')) = x ≤ℤ pos 0

deposit-Deposited : (p : Text) (x : ℤ) (e : EconomyManager) → Deposited e x (deposit p x e)
unfolding deposit
deposit-Deposited p x e = elim (Option-cases (lookup p e.accounts)) [
  | inl new ↦
      let b : Account = record { player_id = p; balance = x } in
      grind (int_laws, new, sum_by-insert_new (λ a. a.balance) p b e.accounts new)
  | inr (a, old) ↦
      let b : Account = record a { balance = a.balance +ℤ x } in
      grind (int_laws, old, sum_by-insert (λ a. a.balance) p b a e.accounts old)
]

-- What a call that moves no money in or out may come to.
abbrev pub Conserves : EconomyManager → Defined (Bool × EconomyManager) → Type 0
Conserves e none = Unit
Conserves e (some (true, e')) = total e' ≡ total e
Conserves e (some (false, e')) = e' ≡ e

pay_out-Conserves :
    (t : Text) (x : ℤ) (e : EconomyManager) (w : Bool × EconomyManager)
    → Withdrawn e x (some w)
    → Conserves e (pay_out t x w)
unfolding pay_out
pay_out-Conserves t x e (false, e') h = h
pay_out-Conserves t x e (true, e') h = go (deposit t x e') (deposit-Deposited t x e')
  where
    go :
        (d : Defined (Bool × EconomyManager))
        → Deposited e' x d
        → Conserves e (d >>= λ r. some (true, r.1))
    go none k = tt
    go (some (true, e'')) k = rw (k, h.1) (omega int_laws)
    go (some (false, e'')) k = absurd (omega (arith, h.0))

-- A transfer never changes the total, also to oneself or to a player without an account; one that
-- is refused changes nothing at all.
pub transfer-Conserves : (f t : Text) (x : ℤ) (e : EconomyManager) → Conserves e (transfer f t x e)
unfolding transfer
transfer-Conserves f t x e = go (withdraw f x e) (withdraw-Withdrawn f x e)
  where
    go : (w : Defined (Bool × EconomyManager)) → Withdrawn e x w → Conserves e (w >>= pay_out t x)
    go none h = tt
    go (some w) h = pay_out-Conserves t x e w h

-- A result that is there, and leaves the accounts solvent.
abbrev pub Succeeds : ℤ → Defined (Bool × EconomyManager) → Type 0
Succeeds limit none = ⊥
Succeeds limit (some (r, e')) = IsSolvent e' × (total e' ≤ℤ limit)

pub withdraw-Succeeds :
    (p : Text) (x : ℤ) (e : EconomyManager)
    → IsSolvent e
    → total e ≤ℤ i64_max
    → Succeeds i64_max (withdraw p x e)
unfolding withdraw
withdraw-Succeeds p x e s h = elim (Option-cases (lookup p e.accounts)) [
  | inl new ↦ ground (arith, new)
  | inr (a, old) ↦
      let b : Account = record a { balance = a.balance -ℤ x } in
      grind (
        int_laws,
        old,
        sum_by-insert (λ a. a.balance) p b a e.accounts old,
        le-sum_by (λ a. a.balance) p a e.accounts s old,
        AllValues-lookup (λ a. pos 0 ≤ℤ a.balance) p a e.accounts s old,
        AllValues-insert (λ a. pos 0 ≤ℤ a.balance) p b e.accounts,
      )
]

deposit-Succeeds :
    (p : Text) (x : ℤ) (e : EconomyManager)
    → IsSolvent e
    → pos 1 ≤ℤ x
    → total e +ℤ x ≤ℤ i64_max
    → Succeeds i64_max (deposit p x e)
unfolding deposit
deposit-Succeeds p x e s q h = elim (Option-cases (lookup p e.accounts)) [
  | inl new ↦
      let b : Account = record { player_id = p; balance = x } in
      grind (
        int_laws,
        new,
        sum_by-insert_new (λ a. a.balance) p b e.accounts new,
        AllValues-insert (λ a. pos 0 ≤ℤ a.balance) p b e.accounts,
      )
  | inr (a, old) ↦
      let b : Account = record a { balance = a.balance +ℤ x } in
      grind (
        int_laws,
        old,
        sum_by-insert (λ a. a.balance) p b a e.accounts old,
        le-sum_by (λ a. a.balance) p a e.accounts s old,
        AllValues-lookup (λ a. pos 0 ≤ℤ a.balance) p a e.accounts s old,
        AllValues-insert (λ a. pos 0 ≤ℤ a.balance) p b e.accounts,
      )
]

pay_out-Succeeds :
    (t : Text) (x : ℤ) (e : EconomyManager) (w : Bool × EconomyManager)
    → total e ≤ℤ i64_max
    → Withdrawn e x (some w)
    → Succeeds i64_max (some w)
    → Succeeds i64_max (pay_out t x w)
unfolding pay_out
pay_out-Succeeds t x e (false, e') m h s = s
pay_out-Succeeds t x e (true, e') m h s =
    go (deposit t x e') (deposit-Succeeds t x e' s.0 h.0 (rw h.1 (omega int_laws)))
  where
    go :
        (d : Defined (Bool × EconomyManager))
        → Succeeds i64_max d
        → Succeeds i64_max (d >>= λ r. some (true, r.1))
    go none k = k
    go (some (r, e'')) k = k

-- From solvent accounts whose total fits an int64_t no transfer overflows: it returns, and the
-- accounts are solvent again, with a total that fits.
transfer-Succeeds :
    (f t : Text) (x : ℤ) (e : EconomyManager)
    → IsSolvent e
    → total e ≤ℤ i64_max
    → Succeeds i64_max (transfer f t x e)
unfolding transfer
transfer-Succeeds f t x e s m =
    go (withdraw f x e) (withdraw-Withdrawn f x e) (withdraw-Succeeds f x e s m)
  where
    go :
        (w : Defined (Bool × EconomyManager))
        → Withdrawn e x w
        → Succeeds i64_max w
        → Succeeds i64_max (w >>= pay_out t x)
    go none h k = absurd k
    go (some w) h k = pay_out-Succeeds t x e w m h k
