-- ===== src/Suppression/Agreement.antt =====
-- src/suppression/stream.py against src/suppression/evaluate.py: the accumulator fed with all rows,
-- and the evaluation of the whole list.
mod Feeding
mod Masks
mod Sets
mod Summary
pub mod Final
pub mod OnPanels
