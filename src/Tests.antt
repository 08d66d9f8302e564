-- ===== src/Tests.antt =====
-- Runs of the model on small guests, and a concrete guest for each theorem with hypotheses.
mod Guests
mod Libvirt
mod Qmp
mod Reached
mod Records
mod Info
mod Whole
mod Domain
mod Xutil
mod Located
mod Symbols
mod Paging
mod Kaslr
mod Ring
mod Vmcoreinfo
mod Text
mod Log
mod Main
mod Client
