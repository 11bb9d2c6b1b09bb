-- ===== src/Std.antt =====
-- What the sources use of the C++ standard library, over texts as lists of character codes:
-- comparison and search of `std::string`, `std::to_string`, `std::stoi` and the extraction
-- operator of `std::istringstream`, each with the failure that it throws or reports.
pub mod Text
pub mod Fault
pub mod Number
pub mod Stream
pub mod Files
pub mod Map
