-- ===== src/Cms.antt =====
-- cms: the client of the CMS notifier.
pub mod Notifier
