-- ===== src/Tests.antt =====
-- Concrete runs of the modelled code, and the properties at concrete inputs.
mod Sample
mod Journal
mod Chunking
mod Execution
mod Transcript
mod Policy
mod Correction
mod Recovery
mod Pipeline
mod JournalFile
mod Segmentation
mod SubRip
