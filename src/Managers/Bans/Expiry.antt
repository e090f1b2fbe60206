-- ===== src/Managers/Bans/Expiry.antt =====
-- Who is banned, and when: src/core/ban_manager.cpp.
use mcx.Prelude.{
  ◌≡◌, refl, ap, subst, Bool, true, false, ◌||◌, none, List, [], ◌∷◌, arith, if◌then◌else◌, nat_eq,
  text_eq, text_eq_iff, text_key,
}
use mcx.Prelude.Text.{Text}
use mcx.Prelude.Int.{ℤ, pos, ◌+ℤ◌, ltb_ℤ}
use mcx.Maps.{lookup, lookup-insert, lookup-erase}
use mcx.Maps.Keyed.{IsKeyed, insert-IsKeyed, erase-IsKeyed}
use mcx.Managers.Bans.{
  BanEntry, BanManager, hours, ban, ban_permanent, unban, is_banned, get_active_bans,
}

-- Every entry stands under its own player, once.
abbrev pub IsByPlayer : BanManager → Type 0
IsByPlayer = IsKeyed (λ (entry : BanEntry). entry.player_id)

-- The calls that change the bans.
pub data Call : Type 0 where
  bans_for : ℤ → Text → Text → ℤ → Call
  bans_forever : Text → Text → Call
  unbans : Text → Call

abbrev pub step : Call → BanManager → BanManager
step (bans_for now id reason duration) = ban now id reason duration
step (bans_forever id reason) = ban_permanent id reason
step (unbans id) = unban id

abbrev pub run : List Call → BanManager → BanManager
run [] bans = bans
run (c ∷ cs) bans = run cs (step c bans)

step-IsByPlayer : (c : Call) (bans : BanManager) → IsByPlayer bans → IsByPlayer (step c bans)
unfolding ban ban_permanent unban
step-IsByPlayer (bans_for now id reason duration) bans k =
    insert-IsKeyed (λ (entry : BanEntry). entry.player_id) _ _ bans refl k
step-IsByPlayer (bans_forever id reason) bans k =
    insert-IsKeyed (λ (entry : BanEntry). entry.player_id) _ _ bans refl k
step-IsByPlayer (unbans id) bans k = erase-IsKeyed (λ (entry : BanEntry). entry.player_id) id bans k

run-IsByPlayer : (cs : List Call) (bans : BanManager) → IsByPlayer bans → IsByPlayer (run cs bans)
run-IsByPlayer [] bans k = k
run-IsByPlayer (c ∷ cs) bans k = run-IsByPlayer cs (step c bans) (step-IsByPlayer c bans k)

-- Some entry of the list is about the player.
abbrev pub names_player : Text → List BanEntry → Bool
names_player id [] = false
names_player id (entry ∷ rest) = text_eq entry.player_id id || names_player id rest

names_nobody :
    (now : ℤ) (id : Text) (bans : BanManager)
    → IsByPlayer bans
    → lookup id bans ≡ none
    → names_player id (get_active_bans now bans) ≡ false
unfolding lookup get_active_bans
names_nobody now id [] k h = refl
names_nobody now id ((j, w) ∷ bans) k h =
    ground (arith, names_nobody now id bans k.2, ap (λ (t : Text). text_eq t id) k.0)

is_banned_names :
    (now : ℤ) (id : Text) (bans : BanManager)
    → IsByPlayer bans
    → is_banned now id bans ≡ names_player id (get_active_bans now bans)
unfolding lookup is_banned get_active_bans
is_banned_names now id [] k = refl
is_banned_names now id ((j, w) ∷ bans) k = ground (
  arith,
  is_banned_names now id bans k.2,
  names_nobody now id bans k.2,
  ap (λ (t : Text). text_eq t id) k.0,
  text_eq_iff j id,
  subst (λ (t : Text). (lookup t bans ≡ none)) k.0 k.1,
)

-- After any calls on an empty ban list, IsBanned answers true exactly for the players that
-- GetActiveBans lists at the same time.
pub is_banned-get_active_bans :
    (now : ℤ) (id : Text) (cs : List Call)
    → is_banned now id (run cs []) ≡ names_player id (get_active_bans now (run cs []))
is_banned-get_active_bans now id cs = is_banned_names now id (run cs []) (run-IsByPlayer cs [] tt)

-- The state of a ban after each call: a timed ban holds up to its end and not at it, also where the
-- player was banned for ever before; a permanent one holds at any time; a lifted one at none; and no
-- call touches the ban of another player.
is_banned-step :
    (now : ℤ) (id : Text) (c : Call) (bans : BanManager)
    → is_banned now id (step c bans) ≡ elim c [
      | bans_for start j reason duration ↦
          if text_eq j id then ltb_ℤ now (start +ℤ hours duration) else is_banned now id bans
      | bans_forever j reason ↦ if text_eq j id then true else is_banned now id bans
      | unbans j ↦ if text_eq j id then false else is_banned now id bans
    ]
unfolding is_banned ban ban_permanent unban
is_banned-step now id (bans_for start j reason duration) bans = ground (
  arith,
  lookup-insert j id
      (record {
        player_id = j;
        reason = reason;
        expires = start +ℤ hours duration;
        permanent = false;
      })
      bans,
)
is_banned-step now id (bans_forever j reason) bans = ground (
  arith,
  lookup-insert j id (record { player_id = j; reason = reason; expires = pos 0; permanent = true })
      bans,
)
is_banned-step now id (unbans j) bans = ground (arith, lookup-erase j id bans)
