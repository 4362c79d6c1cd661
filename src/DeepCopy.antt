-- ===== src/DeepCopy.antt =====
-- api/v1alpha1/zz_generated.deepcopy.go: the deep copies of the custom resource, on a memory in
-- which pointers, slices and maps are addresses.
pub mod Memory
pub mod Views
pub mod Deep
pub mod Loops
pub mod Fields
pub mod Types
pub mod ViewTypes
pub mod Cells
pub mod Parts
pub mod Copies
pub mod Values
pub mod Reads
pub mod AreDeep
pub mod Programs
pub mod Independence
pub mod Objects
