-- ===== src/Transitions.antt =====
-- engine/persistence/transitions.py and its neighbours signals.py, updates.py, timers.py and
-- timeouts.py: the transitions that change executions, each as one transaction.
pub mod Start
pub mod Control
pub mod Closing
pub mod Append
pub mod Commit
pub mod Activities
pub mod Signals
pub mod Updates
pub mod Timers
pub mod Timeouts
pub mod Load
