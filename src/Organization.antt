-- ===== src/Organization.antt =====
-- src/modules/organization: organizations, memberships and invitations.
pub mod Membership
pub mod Row
pub mod Service
pub mod Lifecycle
pub mod Invitation
pub mod Joining
pub mod Creation
