-- ===== src/Tests.antt =====
-- Runs of the model at concrete inputs, and the theorems at inputs that meet their hypotheses.
pub mod Basic
pub mod Disks
pub mod FsWitness
pub mod ServerWitness
pub mod WriteWitness
pub mod SocketWitness
pub mod ShellWitness
pub mod PartWitness
pub mod ProgramWitness
pub mod RawWitness
pub mod DiskWitness
pub mod VolumeWitness
pub mod HandleWitness
