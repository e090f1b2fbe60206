-- ===== src/Launchers/Imgui/Unread.antt =====
-- What LoadConfig makes of the file that SaveConfig wrote, and of a line with a star in front.
use mcx.Prelude.{
  suc, ◌≡◌, refl, ap, ◌∙◌, Bool, true, false, Option, none, some, List, [], ◌∷◌, ◌++◌, map, arith,
  ◌==◌, if◌then◌else◌, concat, All, All-append, not, ◌&&◌,
}
use mcx.Prelude.Int.{ℤ, pos, negsuc}
use mcx.Prelude.Text.{Text, codes}
use mcx.Prelude.Decimal.{int_text, is_space, skip_spaces, to_string-Without}
use mcx.Prelude.Search.{behind, Without}
use mcx.Launchers.Imgui.Config.{
  Config, bool_text, saved_lines, end_line, save_config, get_lines, behind_star, has_text,
  load_line, load_lines, load_config,
}

-- getline gives back the lines that were written.
get_lines-line : (l rest : Text) → Without 10 l → get_lines (l ++ (10 ∷ rest)) ≡ l ∷ get_lines rest
unfolding get_lines
get_lines-line [] rest h = refl
get_lines-line (c ∷ l) rest h = rw (h.0, get_lines-line l rest h.1) refl

append_assoc_line : (l rest : Text) → (l ++ (10 ∷ [])) ++ rest ≡ l ++ (10 ∷ rest)
append_assoc_line [] rest = refl
append_assoc_line (c ∷ l) rest = ap (◌∷◌ c) (append_assoc_line l rest)

get_lines-concat :
    (ls : List Text) → All (Without 10) ls → get_lines (concat (map end_line ls)) ≡ ls
get_lines-concat [] h = unfold get_lines in refl
get_lines-concat (l ∷ ls) h =
    ap get_lines (append_assoc_line l (concat (map end_line ls)))
    ∙ get_lines-line l (concat (map end_line ls)) h.0
    ∙ ap (◌∷◌ l) (get_lines-concat ls h.1)

-- A line with no star behind its white space changes nothing.
abbrev IsUnstarred : Text → Type 0
IsUnstarred line = behind_star line ≡ none

same_branches {ℓ} :
    {A : Type ℓ} (p q r s : Bool) (x : A)
    → (if p then x else if q then x else if r then x else if s then x else x) ≡ x
same_branches true q r s x = refl
same_branches false true r s x = refl
same_branches false false true s x = refl
same_branches false false false true x = refl
same_branches false false false false x = refl

load_line_unstarred : (line : Text) (c : Config) → IsUnstarred line → load_line line c ≡ some c
unfolding load_line
load_line_unstarred line c h = rw h (
    same_branches (has_text (codes "serverName") line) (has_text (codes "bindIp") line)
      (has_text (codes "port\":") line) (has_text (codes "maxPlayers") line) (some c))

load_lines_unstarred : (ls : List Text) (c : Config) → All IsUnstarred ls → load_lines ls c ≡ some c
unfolding load_lines
load_lines_unstarred [] c h = refl
load_lines_unstarred (l ∷ ls) c h = rw (load_line_unstarred l c h.0) (load_lines_unstarred ls c h.1)

saved_lines-IsUnstarred : (c : Config) → All IsUnstarred (saved_lines c)
unfolding saved_lines behind_star behind skip_spaces is_space
saved_lines-IsUnstarred c =
    (refl, (refl, (refl, (refl, (refl, (refl, (refl, (refl, (refl, (refl, (refl, tt)))))))))))

-- The texts of a configuration are lines of an input field.
abbrev pub IsOneLine : Config → Type 0
IsOneLine c = Without 10 c.server_name × Without 10 c.bind_ip × Without 10 c.rcon_password

int_text-Without : (n : ℤ) → Without 10 (int_text n)
unfolding int_text
int_text-Without (pos n) = to_string-Without 10 n (omega arith)
int_text-Without (negsuc n) = (refl, to_string-Without 10 (suc n) (omega arith))

bool_text-Without : (b : Bool) → Without 10 (bool_text b)
unfolding bool_text codes
bool_text-Without true = (refl, (refl, (refl, (refl, tt))))
bool_text-Without false = (refl, (refl, (refl, (refl, (refl, tt)))))

-- A test for texts that are written out.
all_clean : Text → Bool
all_clean [] = true
all_clean (c ∷ s) = not (c == 10) && all_clean s

clean : (s : Text) → all_clean s ≡ true → Without 10 s
unfolding all_clean
clean [] h = tt
clean (c ∷ s) h = (ground arith, clean s (ground arith))

-- A line of a key, its value and what closes it.
line-Without :
    (key value close : Text)
    → all_clean key ≡ true
    → all_clean close ≡ true
    → Without 10 value
    → Without 10 (key ++ (value ++ close))
line-Without key value close k e v =
    All-append (λ c. (c == 10) ≡ false) key (value ++ close) (clean key k)
      (All-append (λ c. (c == 10) ≡ false) value close v (clean close e))

saved_lines-Without : (c : Config) → IsOneLine c → All (Without 10) (saved_lines c)
unfolding saved_lines all_clean
saved_lines-Without c h = (
  clean (codes "{") refl,
  (
    line-Without (codes "  \"serverName\": \"") c.server_name (codes "\",") refl refl (h.0),
    (
      line-Without (codes "  \"bindIp\": \"") c.bind_ip (codes "\",") refl refl (h.1),
      (
        line-Without (codes "  \"port\": ") (int_text c.port) (codes ",") refl refl
            (int_text-Without c.port),
        (
          line-Without (codes "  \"maxPlayers\": ") (int_text c.max_players) (codes ",") refl refl
              (int_text-Without c.max_players),
          (
            line-Without (codes "  \"demoMode\": ") (bool_text c.demo_mode) (codes ",") refl refl
                (bool_text-Without c.demo_mode),
            (
              line-Without (codes "  \"autoUpdate\": ") (bool_text c.auto_update) (codes ",") refl
                  refl (bool_text-Without c.auto_update),
              (
                line-Without (codes "  \"rconEnabled\": ") (bool_text c.rcon_enabled) (codes ",")
                    refl refl (bool_text-Without c.rcon_enabled),
                (
                  line-Without (codes "  \"rconPort\": ") (int_text c.rcon_port) (codes ",") refl
                      refl (int_text-Without c.rcon_port),
                  (
                    line-Without (codes "  \"rconPassword\": \"") c.rcon_password (codes "\"") refl
                        refl (h.2),
                    (clean (codes "}") refl, tt),
                  ),
                ),
              ),
            ),
          ),
        ),
      ),
    ),
  ),
)

-- LoadConfig reads nothing of a file that SaveConfig wrote: for any configuration `saved` whose texts
-- have no line break, the load succeeds and leaves any configuration `c` as it is.
pub load_config-save_config :
    (saved c : Config) (file : Option Text)
    → IsOneLine saved
    → load_config (save_config true saved file) c ≡ some c
unfolding load_config save_config
load_config-save_config saved c file h =
    ap (λ ls. load_lines ls c) (get_lines-concat (saved_lines saved) (saved_lines-Without saved h))
    ∙ load_lines_unstarred (saved_lines saved) c (saved_lines-IsUnstarred saved)
