-- ===== src/Workflow.antt =====
-- backend/srs/workflow: the analysis handle, the tasks of a pipeline line, and the pipeline.
pub mod AnalysisHandle
pub mod TaskDiagram
pub mod TaskGraph
pub mod Pipeline
pub mod Floating
pub mod FrameMissMonitor
pub mod DataMonitor
