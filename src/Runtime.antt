-- ===== src/Runtime.antt =====
-- src/runtime: an actor's heap, the actor with its mailbox, the scheduler, objects, values and lists.
pub mod Heap
pub mod Actor
pub mod Scheduler
pub mod LockFreeQueue
pub mod Objects
pub mod Values
pub mod Lists
pub mod GreenThread
mod Tests
