-- ===== src/Cloudinit.antt =====
-- internal/cloudinit: the script that bootstraps a host, from the cloud-config of Cluster API.
pub mod Kubeadm
pub mod Documents
pub mod Script
