-- ===== src/Server.antt =====
-- http/NGnWorkspace.cxx and http/NGnHttpServer.cxx: the history of a server.
pub mod Defs
pub mod Requests
pub mod Removing
pub mod Table
pub mod History
pub mod Schema
pub mod Names
