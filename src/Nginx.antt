-- ===== src/Nginx.antt =====
-- collectors/public_interfaces.py: the interfaces that nginx and Transmission offer on a node.
pub mod Tokens
pub mod Directives
pub mod Printing
pub mod Quoting
pub mod Termination
pub mod Reader
pub mod Included
pub mod Contained
pub mod Expanded
pub mod Sites
pub mod Sockets
pub mod Transmission
pub mod Interfaces
pub mod Hostnames
pub mod Bound
pub mod Statuses
pub mod Reported
mod Tests
