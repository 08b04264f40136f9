-- ===== src/Subprocess.antt =====
-- linuxpp::subprocess (include/liblinuxpp/subprocess/, src/subprocess/): the status of a child, the popen
-- object, and the descriptors of the standard streams on both sides of clone.
pub mod Status
pub mod Popen
pub mod Argv
pub mod Stack
pub mod Clone
pub mod Streams
