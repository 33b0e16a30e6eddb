-- ===== src/Queue.antt =====
-- app/services/ocr_queue.py: the job queue (class OcrQueue), from its state to its scheduler.
pub mod State
pub mod Next
pub mod Work
pub mod Run
pub mod Status
pub mod Admission
