-- ===== src/Rules/Firing.antt =====
-- src/rules/firing.py and src/rules/firing_stream.py: R6, one alert's firing episodes, over the
-- whole list of its rows and over a stream of them.
pub mod Facts
pub mod Batch
pub mod Stream
mod Order
mod Machine
pub mod Arrival
mod Accumulated
mod Window
mod Ordered
pub mod Agreement
