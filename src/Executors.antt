-- ===== src/Executors.antt =====
-- How sio/workers/executors.py runs programs. Quoting, Process, Supervised, Sio2jail, Compound and
-- PRoot have its classes; a text is the list of its codes.
pub mod Quoting
pub mod Process
pub mod Supervised
pub mod Sio2jail
pub mod Compound
pub mod Proot
