-- ===== src/Launchers/Qt/Menu.antt =====
-- setupMenu: the entries of the menus in their order, each with its handler and its shortcut.
use mcx.Prelude.{Option, none, some, List, [], ◌∷◌, text_eq, text_key, keep_if}
use mcx.Prelude.Text.{Text, codes}

pub data Slot : Type 0 where
  on_start_server on_stop_server on_restart_server on_check_update close : Slot
  on_clear_console on_save_config on_load_config : Slot
  on_about open_documentation : Slot

-- The empty text is no shortcut.
unfoldable pub menu : List (Slot × Text)
unfolding codes
menu =
    (on_start_server, codes "Ctrl+S")
    ∷ (on_stop_server, codes "Ctrl+T")
    ∷ (on_restart_server, codes "Ctrl+R")
    ∷ (on_check_update, codes "Ctrl+U")
    ∷ (close, codes "Ctrl+Q")
    ∷ (on_clear_console, codes "Ctrl+L")
    ∷ (on_save_config, codes "Ctrl+S")
    ∷ (on_load_config, codes "Ctrl+O")
    ∷ (on_about, [])
    ∷ (open_documentation, [])
    ∷ []

-- As Qt documents it, keys that two entries share are ambiguous and run neither.
only : List (Slot × Text) → Option Slot
only ((slot, keys) ∷ []) = some slot
only _ = none

unfoldable pub activated : Text → List (Slot × Text) → Option Slot
unfolding only
activated keys entries = only (keep_if (λ entry. text_eq entry.1 keys) entries)
