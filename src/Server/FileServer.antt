-- ===== src/Server/FileServer.antt =====
-- src/server/file_server.h and file_server.cpp: paths, opening files, directory listings.
pub mod Path
pub mod Files
pub mod Listing
pub mod Page
