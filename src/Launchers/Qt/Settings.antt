-- ===== src/Launchers/Qt/Settings.antt =====
-- The input fields, and what onSaveConfig and onLoadConfig keep of them in QSettings.
use mcx.Prelude.{ℕ, ◌≡◌, Bool, true, false, Option, none, some, if◌then◌else◌, ltb, text_eq}
use mcx.Prelude.Int.{ℤ, pos, negsuc}
use mcx.Prelude.Text.{Text, codes}

-- QSettings with QVariant, as Qt documents them: what is stored under a key is read back, a variant
-- keeps the value that it was made of, and the storage keeps what a variant converts to. What a
-- variant of another type converts to is open.
pub record QSettings : Type 1 where
  pub Variant : Type 0
  pub Store : Type 0
  pub of_text : Text → Variant
  pub of_int : ℤ → Variant
  pub of_bool : Bool → Variant
  pub to_text : Variant → Text
  pub to_int : Variant → ℤ
  pub to_bool : Variant → Bool
  pub stored : Variant → Variant
  pub set_value : Text → Variant → Store → Store
  pub value : Text → Store → Option Variant
  pub value-set_value :
      (k j : Text) (v : Variant) (s : Store)
      → value j (set_value k v s) ≡ (if text_eq k j then some (stored v) else value j s)
  pub to_text-stored : (t : Text) → to_text (stored (of_text t)) ≡ t
  pub to_int-stored : (n : ℤ) → to_int (stored (of_int n)) ≡ n
  pub to_bool-stored : (b : Bool) → to_bool (stored (of_bool b)) ≡ b

-- The line edits, spin boxes and check boxes.
pub record Form : Type 0 where
  pub server_name : Text
  pub bind_ip : Text
  pub port : ℕ
  pub max_players : ℕ
  pub demo_mode : Bool
  pub auto_update : Bool
  pub rcon_enabled : Bool
  pub rcon_port : ℕ
  pub rcon_password : Text

-- What setupCentralWidget puts into them.
unfoldable pub default_form : Form
default_form = record {
  server_name = codes "MCX Server";
  bind_ip = codes "0.0.0.0";
  port = 25565;
  max_players = 50;
  demo_mode = false;
  auto_update = true;
  rcon_enabled = true;
  rcon_port = 25575;
  rcon_password = codes "mcx-password-123";
}

-- `QSpinBox::setValue` under `setRange(1, top)`.
unfoldable pub clamp : ℕ → ℤ → ℕ
clamp top (pos n) = if ltb n 1 then 1 else if ltb top n then top else n
clamp top (negsuc n) = 1

module _ (q : QSettings) where
  open q use {Variant, Store, of_text, of_int, of_bool, to_text, to_int, to_bool, set_value, value}

  unfoldable pub save_form : Form → Store → Store
  unfolding codes
  save_form f s = set_value (codes "rconPassword") (of_text f.rcon_password) (
      set_value (codes "rconPort") (of_int (pos f.rcon_port)) (
        set_value (codes "rconEnabled") (of_bool f.rcon_enabled) (
          set_value (codes "autoUpdate") (of_bool f.auto_update) (
            set_value (codes "demoMode") (of_bool f.demo_mode) (
              set_value (codes "maxPlayers") (of_int (pos f.max_players)) (
                set_value (codes "port") (of_int (pos f.port)) (
                  set_value (codes "bindIp") (of_text f.bind_ip)
                    (set_value (codes "serverName") (of_text f.server_name) s))))))))

  -- `settings.value(key, default)`
  unfoldable pub text_at : Text → Text → Store → Text
  text_at key d s = elim (value key s) [ none ↦ d | some v ↦ to_text v ]

  unfoldable pub int_at : Text → ℤ → Store → ℤ
  int_at key d s = elim (value key s) [ none ↦ d | some v ↦ to_int v ]

  unfoldable pub bool_at : Text → Bool → Store → Bool
  bool_at key d s = elim (value key s) [ none ↦ d | some v ↦ to_bool v ]

  unfoldable pub load_form : Store → Form
  unfolding codes text_at int_at bool_at clamp
  load_form s = record {
    server_name = text_at (codes "serverName") (codes "MCX Server") s;
    bind_ip = text_at (codes "bindIp") (codes "0.0.0.0") s;
    port = clamp 65535 (int_at (codes "port") (pos 25565) s);
    max_players = clamp 1000 (int_at (codes "maxPlayers") (pos 50) s);
    demo_mode = bool_at (codes "demoMode") false s;
    auto_update = bool_at (codes "autoUpdate") true s;
    rcon_enabled = bool_at (codes "rconEnabled") true s;
    rcon_port = clamp 65535 (int_at (codes "rconPort") (pos 25575) s);
    rcon_password = text_at (codes "rconPassword") (codes "mcx-password-123") s;
  }
