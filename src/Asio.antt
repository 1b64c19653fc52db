-- ===== src/Asio.antt =====
-- example/asio.cpp: the timer, the socket factory and the socket watcher over boost::asio.
pub mod State
pub mod Step
pub mod Live
pub mod Entries
pub mod Waits
pub mod Continual
pub mod History
pub mod Timer
pub mod Reports
pub mod Contract
pub mod Loop
pub mod Promise
pub mod Watched
pub mod Main
pub mod Tests
pub mod MainTests
pub mod Answers
pub mod TimerTests
