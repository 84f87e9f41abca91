-- ===== src/Image.antt =====
-- The controllers of images: controllers/hci/virtualmachineimage_controller.go makes the backing image
-- of Longhorn and the storage class, backingimage_controller.go reports the progress of the import.
pub mod Objects
pub mod Controller
pub mod Import
pub mod Started
pub mod Start
