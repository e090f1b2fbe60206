-- ===== src/Managers/Kits/Cooldown.antt =====
-- Kits and their cooldowns: src/core/kit_manager.cpp.
use mcx.Prelude.{
  ◌≡◌, refl, ◌∙◌, true, false, ◌&&◌, Option, none, some, [], arith, if◌then◌else◌, nat_eq, text_eq,
  text_eq_iff, text_key,
}
use mcx.Prelude.Text.{Text}
use mcx.Prelude.Int.{ℤ, ◌-ℤ◌, leb_ℤ}
use mcx.Maps.{lookup, insert, lookup_or, lookup-insert}
use mcx.Managers.Kits.{Kit, KitManager, can_receive_kit, stamp, give_kit}

-- When the player last received the kit.
abbrev pub last_time : Text → Text → KitManager → Option ℤ
last_time player_id kit_name m = lookup kit_name (lookup_or [] player_id m.last_received)

last_time-stamp :
    (now : ℤ) (p q k j : Text) (m : KitManager)
    → last_time q j (stamp now p k m)
      ≡ (if text_eq p q && text_eq k j then some now else last_time q j m)
unfolding stamp lookup_or
last_time-stamp now p q k j m = ground (
  arith,
  lookup-insert p q (insert k now (lookup_or [] p m.last_received)) m.last_received,
  lookup-insert k j now (lookup_or [] p m.last_received),
  text_eq_iff p q,
)

-- A kit can be received exactly when it is defined and its cooldown has run out since the player
-- last received it, or the player never did.
can_receive_kit_lem :
    (now : ℤ) (p k : Text) (kit : Kit) (m : KitManager)
    → lookup k m.kits ≡ some kit
    → can_receive_kit now p k m ≡ elim (last_time p k m) [
      | none ↦ true
      | some last ↦ leb_ℤ kit.cooldown_seconds (now -ℤ last)
    ]
unfolding can_receive_kit lookup_or lookup
can_receive_kit_lem now p k kit m h = ground (arith, h)

kits_kept :
    (now : ℤ) (p k : Text) (m : KitManager) (j : Text)
    → lookup j (stamp now p k m).kits ≡ lookup j m.kits
unfolding stamp
kits_kept now p k m j = refl

-- A gift succeeds exactly when the kit can be received, and then stamps the time; a refusal changes
-- nothing.
give_kit_lem :
    (now later : ℤ) (p k : Text) (m : KitManager)
    → give_kit now later p k m
      ≡ (if can_receive_kit now p k m then (true, stamp later p k m) else (false, m))
unfolding give_kit
give_kit_lem now later p k m = ground arith

-- After a kit is given, the same player gets it again exactly when the cooldown has run out, and
-- every other pair of a player and a defined kit is as before.
give_kit_cooldown :
    (now later after : ℤ) (p q k j : Text) (kit : Kit) (m m' : KitManager)
    → lookup j m.kits ≡ some kit
    → give_kit now later p k m ≡ (true, m')
    → can_receive_kit after q j m' ≡ (
        if text_eq p q && text_eq k j
        then leb_ℤ kit.cooldown_seconds (after -ℤ later)
        else can_receive_kit after q j m)
give_kit_cooldown now later after p q k j kit m m' h e = ground (
  arith,
  given,
  can_receive_kit_lem after q j kit m h,
  can_receive_kit_lem after q j kit (stamp later p k m) (kits_kept later p k m j ∙ h),
  last_time-stamp later p q k j m,
  e,
)
  where
    given : m' ≡ stamp later p k m
    given = ground (arith, give_kit_lem now later p k m, e)
