-- ===== src/Http.antt =====
-- src/http: the request parser, the response builder and the MIME table.
pub mod Mime
pub mod Request
pub mod Response
