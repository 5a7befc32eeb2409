-- ===== src/Proxmox.antt =====
-- internal/provider/proxmox: the back end that clones virtual machines through the API of Proxmox.
pub mod Placeholders
pub mod Cut
pub mod Template
pub mod Wire
pub mod Client
pub mod Guests
pub mod Machines
pub mod Sent
pub mod Quiet
pub mod Creating
pub mod Destroying
pub mod Lifetime
pub mod Polling
pub mod Profiles
pub mod Refusal
pub mod Loaded
mod Examples
