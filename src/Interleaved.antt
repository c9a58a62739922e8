-- ===== src/Interleaved.antt =====
-- lib/poller.js with lib/jobService.js, lib/storage.js and lib/rngPusher.js: the polls of one process
-- as they interleave. index.js starts each poll again only when its last round has ended, so at any
-- time each poll waits at one `await`, and the event loop picks which of them goes on, with what it
-- waited for. What a poll does from one `await` to the next is one function of its child module.
pub mod Effect
pub mod Own
pub mod Parts
pub mod Results
pub mod Deliveries
pub mod Clearing
pub mod System
pub mod Chores
pub mod Safety
pub mod Calls
pub mod Versions
pub mod Alone
pub mod PartsAlone
pub mod ResultsAlone
pub mod Unbroken
pub mod Undisturbed
pub mod Ending
pub mod Added
pub mod Dropped
pub mod Lost
