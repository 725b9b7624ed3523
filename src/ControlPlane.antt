-- ===== src/ControlPlane.antt =====
-- src/control-plane: leases with fencing tokens, and mailboxes with cursors.
pub mod Lease
pub mod Mailbox
