-- ===== src/Ui.antt =====
-- internal/ui: the pages, the forms and the API handlers.
pub mod Overlay
pub mod Api
pub mod Router
pub mod Forms
pub mod Pages
pub mod Program
