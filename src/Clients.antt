-- ===== src/Clients.antt =====
-- The two clients of the run service: offboarding/api/main.py and offboarding/cli/main.py.
-- `compile` is LangGraph's compilation of the graph over the services.
pub mod Api
pub mod Printing
pub mod Cli
pub mod Conflicts
pub mod Missing
pub mod Agreement
pub mod Traffic
pub mod Keeping
pub mod System
pub mod Once
