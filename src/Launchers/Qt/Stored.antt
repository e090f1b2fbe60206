-- ===== src/Launchers/Qt/Stored.antt =====
-- The settings: what a load gives behind a save, and behind anything.
use mcx.Prelude.{ℕ, ◌≤◌, ◌≡◌, refl, ap, ◌∙◌, Bool, true, false, Option, some, arith, text_eq}
use mcx.Prelude.Int.{ℤ, pos, negsuc}
use mcx.Prelude.Text.{Text, codes}
use mcx.Launchers.Qt.Settings.{
  QSettings, Form, clamp, save_form, load_form, text_at, int_at, bool_at,
}

-- The ranges of the spin boxes.
pub record IsInRange (f : Form) : Type 0 where
  pub port : (1 ≤ f.port) × (f.port ≤ 65535)
  pub max_players : (1 ≤ f.max_players) × (f.max_players ≤ 1000)
  pub rcon_port : (1 ≤ f.rcon_port) × (f.rcon_port ≤ 65535)

pub clamp_bounds : (top : ℕ) (n : ℤ) → 1 ≤ top → (1 ≤ clamp top n) × (clamp top n ≤ top)
unfolding clamp
clamp_bounds top (pos n) h = ground arith
clamp_bounds top (negsuc n) h = (omega arith, h)

pub clamp_within : (top n : ℕ) → 1 ≤ n → n ≤ top → clamp top (pos n) ≡ n
unfolding clamp
clamp_within top n l h = ground arith

module _ (q : QSettings) where
  -- A key is found behind the values that other keys were given.
  over :
      (k j : Text) (v : q.Variant) (s : q.Store) {o : Option q.Variant}
      → text_eq k j ≡ false
      → q.value j s ≡ o
      → q.value j (q.set_value k v s) ≡ o
  over k j v s h e = q.value-set_value k j v s ∙ rw h e

  here :
      (k : Text) (v : q.Variant) (s : q.Store)
      → text_eq k k ≡ true
      → q.value k (q.set_value k v s) ≡ some (q.stored v)
  here k v s h = q.value-set_value k k v s ∙ rw h refl

  -- Whatever is stored, a load puts the spin boxes within their ranges.
  pub load_form-IsInRange : (s : q.Store) → IsInRange (load_form q s)
  unfolding load_form
  load_form-IsInRange s = record {
    port = clamp_bounds 65535 (int_at q (codes "port") (pos 25565) s) (omega arith);
    max_players = clamp_bounds 1000 (int_at q (codes "maxPlayers") (pos 50) s) (omega arith);
    rcon_port = clamp_bounds 65535 (int_at q (codes "rconPort") (pos 25575) s) (omega arith);
  }

  -- The variant under each key behind a save.
  abbrev Holds : Text → q.Variant → q.Store → Type 0
  Holds key v s = q.value key s ≡ some (q.stored v)

  module _ (f : Form) (s : q.Store) where
    abbrev saved : q.Store
    saved = save_form q f s

    saved-server_name : Holds (codes "serverName") (q.of_text f.server_name) saved
    unfolding save_form text_eq
    saved-server_name = over _ _ _ _ refl (
        over _ _ _ _ refl (
          over _ _ _ _ refl (
            over _ _ _ _ refl (
              over _ _ _ _ refl
                (over _ _ _ _ refl (over _ _ _ _ refl (over _ _ _ _ refl (here _ _ _ refl))))))))

    saved-bind_ip : Holds (codes "bindIp") (q.of_text f.bind_ip) saved
    unfolding save_form text_eq
    saved-bind_ip = over _ _ _ _ refl (
        over _ _ _ _ refl (
          over _ _ _ _ refl (
            over _ _ _ _ refl
              (over _ _ _ _ refl (over _ _ _ _ refl (over _ _ _ _ refl (here _ _ _ refl)))))))

    saved-port : Holds (codes "port") (q.of_int (pos f.port)) saved
    unfolding save_form text_eq
    saved-port = over _ _ _ _ refl (
        over _ _ _ _ refl (
          over _ _ _ _ refl
            (over _ _ _ _ refl (over _ _ _ _ refl (over _ _ _ _ refl (here _ _ _ refl))))))

    saved-max_players : Holds (codes "maxPlayers") (q.of_int (pos f.max_players)) saved
    unfolding save_form text_eq
    saved-max_players = over _ _ _ _ refl (
        over _ _ _ _ refl
          (over _ _ _ _ refl (over _ _ _ _ refl (over _ _ _ _ refl (here _ _ _ refl)))))

    saved-demo_mode : Holds (codes "demoMode") (q.of_bool f.demo_mode) saved
    unfolding save_form text_eq
    saved-demo_mode =
        over _ _ _ _ refl
          (over _ _ _ _ refl (over _ _ _ _ refl (over _ _ _ _ refl (here _ _ _ refl))))

    saved-auto_update : Holds (codes "autoUpdate") (q.of_bool f.auto_update) saved
    unfolding save_form text_eq
    saved-auto_update = over _ _ _ _ refl (over _ _ _ _ refl (over _ _ _ _ refl (here _ _ _ refl)))

    saved-rcon_enabled : Holds (codes "rconEnabled") (q.of_bool f.rcon_enabled) saved
    unfolding save_form text_eq
    saved-rcon_enabled = over _ _ _ _ refl (over _ _ _ _ refl (here _ _ _ refl))

    saved-rcon_port : Holds (codes "rconPort") (q.of_int (pos f.rcon_port)) saved
    unfolding save_form text_eq
    saved-rcon_port = over _ _ _ _ refl (here _ _ _ refl)

    saved-rcon_password : Holds (codes "rconPassword") (q.of_text f.rcon_password) saved
    unfolding save_form text_eq
    saved-rcon_password = here _ _ _ refl

  text_at-Holds : (key d t : Text) (s : q.Store) → Holds key (q.of_text t) s → text_at q key d s ≡ t
  unfolding text_at
  text_at-Holds key d t s h = rw (h, text_at) (q.to_text-stored t)

  int_at-Holds :
      (key : Text) (d n : ℤ) (s : q.Store) → Holds key (q.of_int n) s → int_at q key d s ≡ n
  unfolding int_at
  int_at-Holds key d n s h = rw (h, int_at) (q.to_int-stored n)

  bool_at-Holds :
      (key : Text) (d b : Bool) (s : q.Store) → Holds key (q.of_bool b) s → bool_at q key d s ≡ b
  unfolding bool_at
  bool_at-Holds key d b s h = rw (h, bool_at) (q.to_bool-stored b)

  -- A spin box takes the number that was stored under its key.
  spin :
      (key : Text) (top n : ℕ) (d : ℤ) (s : q.Store)
      → (1 ≤ n) × (n ≤ top)
      → Holds key (q.of_int (pos n)) s
      → clamp top (int_at q key d s) ≡ n
  spin key top n d s (low, high) h =
      ap (clamp top) (int_at-Holds key d (pos n) s h) ∙ clamp_within top n low high

  -- A save and a load behind it: whatever was in the settings, the load gives the form that was saved,
  -- where its numbers lie in the ranges of the spin boxes.
  pub load_form-save_form :
      (f : Form) (s : q.Store) → IsInRange f → load_form q (save_form q f s) ≡ f
  unfolding load_form
  load_form-save_form f s h = λ i. record {
    server_name =
        text_at-Holds (codes "serverName") (codes "MCX Server") f.server_name (saved f s)
          (saved-server_name f s) i;
    bind_ip =
        text_at-Holds (codes "bindIp") (codes "0.0.0.0") f.bind_ip (saved f s) (saved-bind_ip f s)
          i;
    port = spin (codes "port") 65535 f.port (pos 25565) (saved f s) h.port (saved-port f s) i;
    max_players =
        spin (codes "maxPlayers") 1000 f.max_players (pos 50) (saved f s) h.max_players
          (saved-max_players f s) i;
    demo_mode =
        bool_at-Holds (codes "demoMode") false f.demo_mode (saved f s) (saved-demo_mode f s) i;
    auto_update =
        bool_at-Holds (codes "autoUpdate") true f.auto_update (saved f s) (saved-auto_update f s) i;
    rcon_enabled =
        bool_at-Holds (codes "rconEnabled") true f.rcon_enabled (saved f s) (saved-rcon_enabled f s)
          i;
    rcon_port =
        spin (codes "rconPort") 65535 f.rcon_port (pos 25575) (saved f s) h.rcon_port
          (saved-rcon_port f s) i;
    rcon_password =
        text_at-Holds (codes "rconPassword") (codes "mcx-password-123") f.rcon_password (saved f s)
          (saved-rcon_password f s) i;
  }
