-- ===== src/Device.antt =====
-- src/device: the devices.
pub mod Keyboard
pub mod KeyboardLaws
pub mod SdCard
pub mod FileLaws
pub mod SdCardLaws
pub mod Clock
pub mod ClockLaws
pub mod Serial
pub mod SerialLaws
pub mod CallbackLaws
pub mod Setup
pub mod SetupLaws
