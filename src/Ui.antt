-- ===== src/Ui.antt =====
-- ui/: the desktop tool that edits the configuration file.
pub mod Toml
pub mod Settings
pub mod MainFrame
pub mod App
