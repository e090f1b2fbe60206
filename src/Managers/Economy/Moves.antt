-- ===== src/Managers/Economy/Moves.antt =====
-- What a transfer of src/core/economy_manager.cpp moves.
use mcx.Prelude.{
  ◌≡◌, ap, ◌∙◌, ◌≢◌, true, some, arith, if◌then◌else◌, nat_eq, text_eq, text_eq_iff, text_key,
}
use mcx.Prelude.Text.{Text}
use mcx.Prelude.Int.{ℤ, pos, ◌+ℤ◌, ◌-ℤ◌, ◌≤ℤ◌, int_laws}
use mcx.Maps.{lookup, lookup-insert, lookup-insert_ne, AllValues-lookup}
use mcx.Maps.Sum.{le-sum_by}
use mcx.Managers.Economy.{
  i64_max, Account, EconomyManager, get_balance, deposit, withdraw, transfer, set_balance, pay_out,
}
use mcx.Managers.Economy.Money.{
  total, IsSolvent, Withdrawn, Succeeds, withdraw-Withdrawn, withdraw-Succeeds,
}

get_balance-set_balance :
    (k j : Text) (a : Account) (b : ℤ) (e : EconomyManager)
    → get_balance j (set_balance k a b e) ≡ (if text_eq k j then b else get_balance j e)
unfolding get_balance
get_balance-set_balance k j a b e =
    ground (arith, lookup-insert k j (record a { balance = b }) e.accounts)

withdraw_lem :
    (p : Text) (x : ℤ) (a : Account) (e : EconomyManager)
    → IsSolvent e
    → total e ≤ℤ i64_max
    → lookup p e.accounts ≡ some a
    → pos 1 ≤ℤ x
    → x ≤ℤ a.balance
    → withdraw p x e ≡ some (true, set_balance p a (a.balance -ℤ x) e)
unfolding withdraw
withdraw_lem p x a e s m old px cover =
    grind (int_laws, old, le-sum_by (λ a. a.balance) p a e.accounts s old)

deposit_lem :
    (p : Text) (x : ℤ) (a : Account) (e : EconomyManager)
    → IsSolvent e
    → total e +ℤ x ≤ℤ i64_max
    → lookup p e.accounts ≡ some a
    → pos 1 ≤ℤ x
    → deposit p x e ≡ some (true, set_balance p a (a.balance +ℤ x) e)
unfolding deposit
deposit_lem p x a e s m old px = grind (
  int_laws,
  old,
  le-sum_by (λ a. a.balance) p a e.accounts s old,
  AllValues-lookup (λ a. pos 0 ≤ℤ a.balance) p a e.accounts s old,
)

-- Where no account of anybody is overdrawn and the total of all is an int64_t, a transfer of a
-- positive amount between two different accounts that are there, and of which the first one covers
-- it, succeeds, moves exactly that amount, and touches no third account.
pub transfer_moves :
    (f t u : Text) (x : ℤ) (a b : Account) (e : EconomyManager)
    → IsSolvent e
    → total e ≤ℤ i64_max
    → f ≢ t
    → lookup f e.accounts ≡ some a
    → lookup t e.accounts ≡ some b
    → pos 1 ≤ℤ x
    → x ≤ℤ a.balance
    → u ≢ f
    → u ≢ t
    → (e' : EconomyManager) × (transfer f t x e ≡ some (true, e'))
      × (get_balance f e' ≡ a.balance -ℤ x)
      × (get_balance t e' ≡ b.balance +ℤ x)
      × (get_balance u e' ≡ get_balance u e)
unfolding transfer pay_out
transfer_moves f t u x a b e s m ne ef et px cover nf nt =
    let e1 = set_balance f a (a.balance -ℤ x) e in
    let taken = withdraw_lem f x a e s m ef px cover in
    let w = withdraw-Withdrawn f x e in
    let k = withdraw-Succeeds f x e s m in
    let solvent : Succeeds i64_max (some (true, e1)) = rw taken at k in
    let left : Withdrawn e x (some (true, e1)) = rw taken at w in
    let et1 = lookup-insert_ne f t (record a { balance = a.balance -ℤ x }) e.accounts ne ∙ et in
    let given = deposit_lem t x b e1 solvent.0 (rw left.1 (omega int_laws)) et1 px in
    let balances = λ (j : Text).
      (get_balance-set_balance t j b (b.balance +ℤ x) e1
        ∙ ap (λ (z : ℤ). if text_eq t j then b.balance +ℤ x else z)
            (get_balance-set_balance f j a (a.balance -ℤ x) e)) in
    (
      set_balance t b (b.balance +ℤ x) e1,
      rw taken (rw given),
      ground (arith, balances f, text_eq_iff f f, text_eq_iff t f),
      ground (arith, balances t, text_eq_iff t t),
      ground (arith, balances u, text_eq_iff f u, text_eq_iff t u),
    )
