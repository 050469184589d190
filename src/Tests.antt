-- ===== src/Tests.antt =====
-- Runs of the model on small inputs, and the theorems applied where their hypotheses hold.
mod Samples
mod KeyTests
mod AadTests
mod StatusTests
mod RotationTests
mod KmsTests
mod StoreTests
mod DiskTests
mod ControllerTests
mod DelayTests
mod PolicyTests
