-- ===== src/FileTree.antt =====
-- The virtual file system of a client (VirtualFileSystemTree.h).
pub mod Nodes
pub mod Paths
pub mod Tree
