-- ===== src/Web.antt =====
-- The rules of the web front end, web/src: dashboards as files.
pub mod Files
