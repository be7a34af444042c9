-- ===== src/Search.antt =====
-- Helpers of the search results: src/util/search_util.cpp and include/waylaunch/search_util.h. The
-- home directory and the clock are arguments.
pub mod Paths
pub mod Abbreviation
