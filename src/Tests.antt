-- ===== src/Tests.antt =====
-- Runs of the models at concrete inputs, and the theorems at them.
mod Xvmalloc
mod Aufs
mod Ramzswap
mod Xino
mod Vdir
mod Empty
mod Branches
mod Opts
