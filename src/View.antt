-- ===== src/View.antt =====
-- What the server shows: the texts of server/GUIModel and of server/GUI/QMemoryStatsView.cpp.
pub mod Qt
pub mod Cells
pub mod OperationTable
pub mod ThreadTable
pub mod StatsView
pub mod Window
