-- ===== src/LineEditor.antt =====
-- The line editor of src/line_editor.rs.
pub mod History
pub mod Keys
