-- ===== src/Tensor.antt =====
-- ella-tensor/src: the masks of tensors, and slices of their axes.
pub mod Mask
pub mod Slice
pub mod View
pub mod Iter
pub mod Compare
pub mod Combine
