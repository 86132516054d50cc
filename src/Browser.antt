-- ===== src/Browser.antt =====
-- internal/s3api/browser.go: the browser interface.
pub mod FileNames
pub mod Sessions
pub mod Pages
pub mod Site
pub mod ReadOnly
pub mod Steps
pub mod SessionLaws
pub mod Visits
pub mod SafeNames
