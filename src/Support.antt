-- ===== src/Support.antt =====
-- internal/supportservice: the policies on what may be read of a credential.
pub mod MaterialRead
