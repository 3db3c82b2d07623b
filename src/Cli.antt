-- ===== src/Cli.antt =====
-- install.py and app/cli: the installer and the command line tools, on a machine.
pub mod Machine
pub mod Commands
pub mod Backup
pub mod Botctl
pub mod Update
pub mod Installer
pub mod DoctorUtils
pub mod EnvFile
pub mod Doctor
pub mod Configure
pub mod Maintenance
mod Tests
