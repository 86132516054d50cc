-- ===== src/Handlers.antt =====
-- internal/s3api/handlers.go and multipart.go: the handlers behind the router.
pub mod Replies
pub mod Bodies
pub mod Objects
pub mod Uploads
pub mod Delivery
