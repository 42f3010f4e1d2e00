-- ===== src/Tests/VideoFrames.antt =====
-- Examples for src/video_frame.cpp.
use client_sdk_cpp.Prelude.{ℕ, ◌+◌, ◌≡◌, some, refl, arith, List, [], ◌∷◌}
use client_sdk_cpp.VideoFrame.{VideoFrame, i420, compute_buffer_size, size_of, plane_infos, zeros}
use client_sdk_cpp.VideoFrame.Planes.{Tiles, plane_infos-Tiles}

-- Three pixels by one: three samples of luma, twice two of chroma.
abbrev small : VideoFrame
small = record { width = 3; height = 1; type = i420; bytes = zeros 7 }

abbrev one_byte : List ℕ
one_byte = 1 ∷ []

size_known : compute_buffer_size 3 1 i420 ≡ some 7
unfolding compute_buffer_size size_of
size_known = refl

plane_infos-Tiles_example : Tiles 4_096 (plane_infos 4_096 small) (4_096 + 7)
plane_infos-Tiles_example =
    plane_infos-Tiles 4_096 small 7 (omega arith) (omega arith) (omega arith) size_known
      (omega arith) (omega arith) (omega arith) (omega arith)
