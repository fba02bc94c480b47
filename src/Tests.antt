-- ===== src/Tests.antt =====
-- Runs of the modelled code at small inputs, and the theorems at inputs that meet their hypotheses.
mod Access
mod Bucket
mod Config
mod Files
mod Ledger
mod MyList
mod Objects
mod Position
mod Procs
mod Frames
mod Threads
mod Vm
