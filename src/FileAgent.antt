-- ===== src/FileAgent.antt =====
-- programs/agents/agent_file.cpp: the agent that moves files between nodes.
pub mod Chunks
pub mod Receive
pub mod Queue
pub mod Transactions
pub mod Handlers
pub mod Meta
pub mod Metadata
pub mod Send
pub mod Runs
