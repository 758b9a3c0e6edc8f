-- ===== src/Jobs.antt =====
-- The jobs of the browser page: Ui/app.js, lines 1 to 9 and 1050 to 1233.
pub mod Identity
pub mod Command
pub mod Board
mod Tests
