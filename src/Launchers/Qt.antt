-- ===== src/Launchers/Qt.antt =====
-- MCXLauncher of src/launcher/mcx_launcher.cpp. Qt is not modelled: its signals are events, the
-- answers of its dialogs and of the process are values, and QSettings is an interface.
pub mod Settings
pub mod Window
pub mod Events
pub mod Menu
pub mod Stored
pub mod Agrees
pub mod Closing
pub mod Starts
pub mod Prompts
pub mod Orders
