-- ===== src/Ansible.antt =====
-- internal/provisioner/ansible: the back end that provisions environments with playbooks.
pub mod Inventory
pub mod Vars
mod Examples
