-- ===== src/Petstore/Examples.antt =====
-- Two pets in a store over the tree of Examples/SortedTree, and the store's theorems at that store.
mod SortedTree
mod Stores
mod Searches
mod Requests
mod Streams
mod Clients
mod Kubernetes
mod Resources
mod Telemetry
