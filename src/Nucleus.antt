-- ===== src/Nucleus.antt =====
-- The nuclei of nucleus/, one function for each C function, over the evaluator that it calls.
pub mod Args
pub mod Core
pub mod Lists
pub mod Iter
pub mod Putf
pub mod Numbers
pub mod Reals
pub mod Logic
pub mod Compare
pub mod Types
pub mod Lambda
pub mod Strings
pub mod Assert
pub mod Files
pub mod Fs
pub mod Scanf
pub mod Import
