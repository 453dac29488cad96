-- ===== src/Project.antt =====
-- Package internal/project: from the text of a Kranqfile to the layers of its build.
pub mod Fields
pub mod Lex
pub mod Kranqfile
pub mod Bind
