-- ===== src/VideoFrame.antt =====
-- `VideoFrame` of src/video_frame.cpp: the size of a frame's buffer and the layout of its planes. A
-- width or a height is an `int`; 0 stands for one that is not positive, which the code treats alike.
pub mod Planes
use client_sdk_cpp.Prelude.{
  ℕ, zero, suc, Bool, true, false, ◌||◌, List, [], ◌∷◌, Option, none, some, if◌then◌else◌, ◌==◌,
  ltb, length, ◌+◌, ◌*◌, ◌/◌, ◌%◌, ◌^◌,
}

pub data VideoBufferType : Type 0 where
  rgba abgr argb bgra rgb24 i420 i420a i422 i444 i010 nv12 external : VideoBufferType

-- Arithmetic on `std::uint32_t`, and on `std::size_t` and `uintptr_t`.
abbrev pub word32 : ℕ → ℕ
word32 n = n % 2 ^ 32

abbrev pub word64 : ℕ → ℕ
word64 n = n % 2 ^ 64

unfoldable pub size_of : VideoBufferType → ℕ → ℕ → Option ℕ
size_of rgba w h = some (word64 (w * h * 4))
size_of abgr w h = some (word64 (w * h * 4))
size_of argb w h = some (word64 (w * h * 4))
size_of bgra w h = some (word64 (w * h * 4))
size_of rgb24 w h = some (word64 (w * h * 3))
size_of i444 w h = some (word64 (w * h * 3))
size_of i420 w h = some (word64 (w * h + (w + 1) / 2 * ((h + 1) / 2) * 2))
size_of nv12 w h = some (word64 (w * h + (w + 1) / 2 * ((h + 1) / 2) * 2))
size_of i010 w h = some (word64 (w * h * 2 + (w + 1) / 2 * ((h + 1) / 2) * 4))
size_of i420a w h = some (word64 (w * h * 2 + (w + 1) / 2 * ((h + 1) / 2) * 2))
size_of i422 w h = some (word64 (w * h + (w + 1) / 2 * h * 2))
size_of external w h = none

-- `computeBufferSize`: `none` where it throws.
unfoldable pub compute_buffer_size : ℕ → ℕ → VideoBufferType → Option ℕ
compute_buffer_size width height type =
    if (width == 0) || (height == 0) then none else size_of type width height

-- `VideoPlaneInfo`
pub record Plane : Type 0 where
  pub data_ptr : ℕ
  pub stride : ℕ
  pub size : ℕ

-- Each plane starts where the one before it ends: a stride and a size for each.
unfoldable pub push_planes : ℕ → List (ℕ × ℕ) → List Plane
push_planes ptr [] = []
push_planes ptr ((stride, size) ∷ rest) =
    record { data_ptr = ptr; stride = stride; size = size } ∷ push_planes (word64 (ptr + size)) rest

-- One plane of packed pixels of `n` bytes.
abbrev pub packed : ℕ → ℕ → ℕ → List (ℕ × ℕ)
packed n w h = let stride = word32 (w * n) in (stride, word32 (stride * h)) ∷ []

-- `chroma_w` and `chroma_h`.
abbrev pub half : ℕ → ℕ
half n = word32 (n + 1) / 2

unfoldable pub plane_sizes : VideoBufferType → ℕ → ℕ → List (ℕ × ℕ)
plane_sizes rgba w h = packed 4 w h
plane_sizes abgr w h = packed 4 w h
plane_sizes argb w h = packed 4 w h
plane_sizes bgra w h = packed 4 w h
plane_sizes rgb24 w h = packed 3 w h
plane_sizes i420 w h =
    let chroma : ℕ × ℕ = (half w, word32 (half w * half h)) in
    (w, word32 (w * h)) ∷ chroma ∷ chroma ∷ []
plane_sizes i420a w h =
    let chroma : ℕ × ℕ = (half w, word32 (half w * half h)) in
    (w, word32 (w * h)) ∷ chroma ∷ chroma ∷ (w, word32 (w * h)) ∷ []
plane_sizes i422 w h =
    let chroma : ℕ × ℕ = (half w, word32 (half w * h)) in (w, word32 (w * h)) ∷ chroma ∷ chroma ∷ []
plane_sizes i444 w h = let plane : ℕ × ℕ = (w, word32 (w * h)) in plane ∷ plane ∷ plane ∷ []
plane_sizes i010 w h =
    let chroma : ℕ × ℕ = (word32 (half w * 2), word32 (word32 (half w * half h) * 2)) in
    (word32 (w * 2), word32 (word32 (w * h) * 2)) ∷ chroma ∷ chroma ∷ []
plane_sizes nv12 w h =
    (w, word32 (w * h)) ∷ (word32 (half w * 2), word32 (word32 (half w * half h) * 2)) ∷ []
plane_sizes external w h = []

unfoldable pub compute_plane_infos : ℕ → ℕ → ℕ → VideoBufferType → List Plane
compute_plane_infos base width height type =
    if (base == 0) || ((width == 0) || (height == 0))
    then []
    else push_planes base (plane_sizes type width height)

-- A frame: its buffer is a list of bytes, at an address.
pub record VideoFrame : Type 0 where
  pub width : ℕ
  pub height : ℕ
  pub type : VideoBufferType
  pub bytes : List ℕ

-- The constructor: `none` where it throws.
unfoldable pub new_frame : ℕ → ℕ → VideoBufferType → List ℕ → Option VideoFrame
new_frame width height type bytes = elim (compute_buffer_size width height type) [
  | none ↦ none
  | some expected ↦
      if ltb (length bytes) expected
      then none
      else some (record { width = width; height = height; type = type; bytes = bytes })
]

abbrev pub zeros : ℕ → List ℕ
zeros zero = []
zeros (suc n) = 0 ∷ zeros n

unfoldable pub create : ℕ → ℕ → VideoBufferType → Option VideoFrame
create width height type = elim (compute_buffer_size width height type) [
  | none ↦ none
  | some size ↦ new_frame width height type (zeros size)
]

unfoldable pub plane_infos : ℕ → VideoFrame → List Plane
plane_infos address f =
    if length f.bytes == 0 then [] else compute_plane_infos address f.width f.height f.type
