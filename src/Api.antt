-- ===== src/Api.antt =====
-- The objects that the controllers read and write: those of apis/hci/v1beta1, and the parts of
-- Kubernetes', KubeVirt's and Longhorn's objects that the controllers name.
mod Meta
mod Kubevirt
mod Storage
mod Backup
mod Restore
mod Values
mod Metadata
mod Image
mod Equality
pub use Meta.*
pub use Kubevirt.*
pub use Storage.*
pub use Backup.*
pub use Restore.*
pub use Values.*
pub use Image.*
pub use Metadata.*
unfoldable pub use Equality.*
