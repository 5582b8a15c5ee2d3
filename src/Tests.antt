-- ===== src/Tests.antt =====
-- Runs of the modelled code at concrete inputs.
mod Endian
mod Stream
mod Frame
mod PodVector
mod EventQueue
mod Sending
mod Timers
mod Channel
mod Delivery
mod Watcher
mod ObjectPool
mod SharedMutex
mod Server
mod Service
mod Split
mod Transfer
mod Udp
