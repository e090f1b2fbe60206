-- ===== src/Setup/Config/Keys.antt =====
-- Which members of the document a loaded configuration depends on.
use mcx.Prelude.{◌≡◌, ◌↔◌, ap, Bool, true, false, Option, none, some, [], if◌then◌else◌, arith}
use mcx.Prelude.Text.{Text, codes}
use mcx.Prelude.Int.{ℤ, pos}
use mcx.Prelude.Do.{◌>>=◌}
use mcx.Server.Core.{Config}
use mcx.Setup.Config.{JsonLibrary, empty_config, member_or, read_config, load_config_from_file}

abbrev pub ReadsIf : {A : Type 0} → Bool → Option A → A → A → Type 0
ReadsIf true read old a = read ≡ some a
ReadsIf false read old a = old ≡ a

test-ReadsIf :
    {A : Type 0} (b : Bool) (read : Option A) (old a : A)
    → ((if b then read else some old) ≡ some a) ↔ ReadsIf b read old a
test-ReadsIf true read old a = ((λ h. h), (λ h. h))
test-ReadsIf false read old a = ((λ h. cc), (λ h. ap some h))

-- The four reads, one after the other.
abbrev assemble : Option Text → Option Text → Option ℤ → Option Bool → Option Config
assemble endpoint root players demo = do
  a ← endpoint
  b ← root
  c ← players
  d ← demo
  some (record empty_config {
    backend_endpoint = a;
    script_root = b;
    max_players = c;
    demo_mode = d;
  })

assemble→parts :
    (endpoint root : Option Text) (players : Option ℤ) (demo : Option Bool) (config : Config)
    → assemble endpoint root players demo ≡ some config
    → (endpoint ≡ some config.backend_endpoint)
      × (root ≡ some config.script_root)
      × (players ≡ some config.max_players)
      × (demo ≡ some config.demo_mode)
      × (codes "modules" ≡ config.modules_path)
assemble→parts none root players demo config h = cc
assemble→parts (some a) none players demo config h = cc
assemble→parts (some a) (some b) none demo config h = cc
assemble→parts (some a) (some b) (some c) none config h = cc
assemble→parts (some a) (some b) (some c) (some d) config h = ground (arith, h)

parts→assemble :
    (endpoint root : Option Text) (players : Option ℤ) (demo : Option Bool) (config : Config)
    → endpoint ≡ some config.backend_endpoint
    → root ≡ some config.script_root
    → players ≡ some config.max_players
    → demo ≡ some config.demo_mode
    → codes "modules" ≡ config.modules_path
    → assemble endpoint root players demo ≡ some config
parts→assemble endpoint root players demo config e0 e1 e2 e3 e4 =
    rw (e0, e1, e2, e3) (ap (λ path. some (record config { modules_path = path })) e4)

module _ (library : JsonLibrary) where
  open library use {Json, parse, contains, get_string, get_int, get_bool}

  -- The member is there and is read with its type, or it is missing and keeps its value.
  abbrev pub Reads : {A : Type 0} → (Json → Text → Option A) → Json → Text → A → A → Type 0
  Reads get json key old a = ReadsIf (contains json key) (get json key) old a

  member_or-Reads :
      {A : Type 0} (get : Json → Text → Option A) (json : Json) (key : Text) (old a : A)
      → (member_or library get json key old ≡ some a) ↔ Reads get json key old a
  unfolding member_or
  member_or-Reads get json key old a = test-ReadsIf (contains json key) (get json key) old a

  -- A document that parses gives a configuration exactly where each of its four keys is missing or
  -- has a value of its type; a missing key leaves the value of an empty configuration, and the path
  -- of the modules is never read.
  load_config_from_file-Reads :
      (content : Text) (json : Json) (config : Config)
      → parse content ≡ some json
      → (load_config_from_file library (some content) ≡ some config) ↔ (
          Reads get_string json (codes "backendEndpoint") [] config.backend_endpoint
          × Reads get_string json (codes "scriptRoot") (codes "scripts") config.script_root
          × Reads get_int json (codes "maxPlayers") (pos 0) config.max_players
          × Reads get_bool json (codes "demoMode") true config.demo_mode
          × (codes "modules" ≡ config.modules_path))
  unfolding load_config_from_file read_config
  load_config_from_file-Reads content json config p =
      let r0 =
        member_or-Reads get_string json (codes "backendEndpoint") [] config.backend_endpoint in
      let r1 =
        member_or-Reads get_string json (codes "scriptRoot") (codes "scripts") config.script_root in
      let r2 = member_or-Reads get_int json (codes "maxPlayers") (pos 0) config.max_players in
      let r3 = member_or-Reads get_bool json (codes "demoMode") true config.demo_mode in
      (
        (λ h.
            let (e0, e1, e2, e3, e4) = assemble→parts _ _ _ _ config (rw p at h) in
            (r0.0 e0, r1.0 e1, r2.0 e2, r3.0 e3, e4)),
        (λ h. rw p (parts→assemble _ _ _ _ config (r0.1 h.0) (r1.1 h.1) (r2.1 h.2) (r3.1 h.3) h.4)),
      )
