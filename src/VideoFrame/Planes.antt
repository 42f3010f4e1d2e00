-- ===== src/VideoFrame/Planes.antt =====
-- The planes of a video frame fill its buffer.
use client_sdk_cpp.Prelude.{
  ℕ, zero, suc, ◌-◌, false, ◌||◌, List, [], ◌∷◌, none, some, if◌then◌else◌, ◌==◌, ltb, length, ◌+◌,
  ◌*◌, ◌/◌, ◌^◌, ◌≤◌, ◌<◌, ◌≡◌, refl, arith, if_rule, subst,
}
use native.Mathlib.Nat.{mul_right_comm}
use client_sdk_cpp.VideoFrame.{
  VideoBufferType, rgba, abgr, argb, bgra, rgb24, i420, i420a, i422, i444, i010, nv12, external,
  word32, word64, size_of, compute_buffer_size, Plane, push_planes, packed, half, plane_sizes,
  compute_plane_infos, VideoFrame, new_frame, zeros, create, plane_infos,
}

-- The planes lie one behind another, from `start` to `stop`.
abbrev pub Tiles : ℕ → List Plane → ℕ → Type 0
Tiles start [] stop = start ≡ stop
Tiles start (p ∷ planes) stop = (p.data_ptr ≡ start) × Tiles (start + p.size) planes stop

total : List (ℕ × ℕ) → ℕ
total [] = 0
total ((stride, size) ∷ rest) = size + total rest

push_planes-Tiles :
    (base : ℕ) (sizes : List (ℕ × ℕ))
    → base + total sizes < 2 ^ 64
    → Tiles base (push_planes base sizes) (base + total sizes)
unfolding push_planes total
push_planes-Tiles base [] h = omega arith
push_planes-Tiles base ((stride, size) ∷ rest) h =
    ground (arith, push_planes-Tiles (base + size) rest)

pub mul_bound : (a b c d : ℕ) → a ≤ b → c ≤ d → a * c ≤ b * d
mul_bound a b c d h k = grind arith

word32_small : (n : ℕ) → n < 2 ^ 32 → word32 n ≡ n
word32_small n h = omega arith

word64_small : (n : ℕ) → n < 2 ^ 64 → word64 n ≡ n
word64_small n h = omega arith

half_small : (n : ℕ) → n < 2 ^ 31 → half n ≡ (n + 1) / 2
half_small n h = omega arith

packed_fit : (k w h : ℕ) → 0 < h → w * h * k < 2 ^ 32 → total (packed k w h) ≡ w * h * k
unfolding total
packed_fit k w h ph fits =
    let row : w * k ≤ w * h * k = grind (arith, mul_bound (w * k) (w * k) 1 h) in
    let e = word32_small (w * k) (omega arith) in
    rw e (grind (arith, mul_right_comm w k h, word32_small (w * h * k) fits))

-- A full plane and two or more others of `c` samples each.
sizes_fit :
    (type : VideoBufferType) (w h n : ℕ)
    → 0 < w
    → 0 < h
    → w < 2 ^ 31
    → h < 2 ^ 31
    → size_of type w h ≡ some n
    → n < 2 ^ 32
    → total (plane_sizes type w h) ≡ n
unfolding size_of plane_sizes total
sizes_fit type w h n pw ph bw bh size fits =
    let full = mul_bound w (2 ^ 31 - 1) h (2 ^ 31 - 1) (omega arith) (omega arith) in
    let chroma =
      mul_bound ((w + 1) / 2) (2 ^ 30) ((h + 1) / 2) (2 ^ 30) (omega arith) (omega arith) in
    let wide = mul_bound ((w + 1) / 2) (2 ^ 30) h (2 ^ 31) (omega arith) (omega arith) in
    go type size full chroma wide
  where
    go :
        (type : VideoBufferType)
        → size_of type w h ≡ some n
        → w * h ≤ (2 ^ 31 - 1) * (2 ^ 31 - 1)
        → (w + 1) / 2 * ((h + 1) / 2) ≤ 2 ^ 30 * 2 ^ 30
        → (w + 1) / 2 * h ≤ 2 ^ 30 * 2 ^ 31
        → total (plane_sizes type w h) ≡ n
    go rgba e full chroma wide =
        let small : w * h * 4 < 2 ^ 32 = ground arith in ground (arith, packed_fit 4 w h ph small)
    go abgr e full chroma wide =
        let small : w * h * 4 < 2 ^ 32 = ground arith in ground (arith, packed_fit 4 w h ph small)
    go argb e full chroma wide =
        let small : w * h * 4 < 2 ^ 32 = ground arith in ground (arith, packed_fit 4 w h ph small)
    go bgra e full chroma wide =
        let small : w * h * 4 < 2 ^ 32 = ground arith in ground (arith, packed_fit 4 w h ph small)
    go rgb24 e full chroma wide =
        let small : w * h * 3 < 2 ^ 32 = ground arith in ground (arith, packed_fit 3 w h ph small)
    go i420 e full chroma wide = rw (half_small w bw, half_small h bh) (ground arith)
    go i420a e full chroma wide = rw (half_small w bw, half_small h bh) (ground arith)
    go i422 e full chroma wide = rw (half_small w bw) (ground arith)
    go i444 e full chroma wide = ground arith
    go i010 e full chroma wide = rw (half_small w bw, half_small h bh) (ground arith)
    go nv12 e full chroma wide = rw (half_small w bw, half_small h bh) (ground arith)
    go external e full chroma wide = cc

dims :
    (w h size : ℕ) (type : VideoBufferType)
    → compute_buffer_size w h type ≡ some size
    → (0 < w) × (0 < h) × (size_of type w h ≡ some size)
unfolding compute_buffer_size
dims w h size type e = ground arith

-- The planes of a frame lie one behind another from the start of its buffer and take as many bytes as
-- the constructor asks of the buffer, so that none reaches beyond it, whatever the format. Assumed: the
-- size of the buffer is below 2^32, where the `std::uint32_t` sizes of the planes do not wrap around,
-- and the buffer does not reach the end of the address space.
pub plane_infos-Tiles :
    (base : ℕ) (f : VideoFrame) (size : ℕ)
    → 0 < base
    → f.width < 2 ^ 31
    → f.height < 2 ^ 31
    → compute_buffer_size f.width f.height f.type ≡ some size
    → size ≤ length f.bytes
    → 0 < size
    → size < 2 ^ 32
    → base + size < 2 ^ 64
    → Tiles base (plane_infos base f) (base + size)
unfolding plane_infos compute_plane_infos compute_buffer_size
plane_infos-Tiles base f size pb bw bh e enough ps small room =
    let (pw, ph, e') : (0 < f.width)
        × (0 < f.height)
        × (size_of f.type f.width f.height ≡ some size) =
      dims f.width f.height size f.type e in
    let t = sizes_fit f.type f.width f.height size pw ph bw bh e' small in
    let tiles = push_planes-Tiles base (plane_sizes f.type f.width f.height) (omega (arith, t)) in
    let filled : (length f.bytes == 0) ≡ false = ground arith in
    let valid : (base == 0) || ((f.width == 0) || (f.height == 0)) ≡ false = ground arith in
    if_rule {A = List Plane} (λ l. Tiles base l (base + size)) (length f.bytes == 0) (λ b. cc)
      (λ b.
        if_rule {A = List Plane} (λ l. Tiles base l (base + size))
          ((base == 0) || ((f.width == 0) || (f.height == 0))) (λ c. cc)
          (λ c.
            subst
              (λ k. Tiles base (push_planes base (plane_sizes f.type f.width f.height)) (base + k))
              t tiles))

length-zeros : (n : ℕ) → length (zeros n) ≡ n
length-zeros zero = refl
length-zeros (suc n) = omega (arith, length-zeros n)

-- `create` succeeds whenever the size is defined, and its frame has a zeroed buffer of exactly that
-- size; the constructor takes a buffer that is given if it has that size or more, and throws if not.
create_exact :
    (width height size : ℕ) (type : VideoBufferType) (bytes : List ℕ)
    → compute_buffer_size width height type ≡ some size
    → (create width height type
        ≡ some (record { width = width; height = height; type = type; bytes = zeros size }))
      × (length (zeros size) ≡ size)
      × (new_frame width height type bytes ≡ (
          if ltb (length bytes) size
          then none
          else some (record { width = width; height = height; type = type; bytes = bytes })))
unfolding create new_frame
create_exact width height size type bytes e =
    let exact : ltb (length (zeros size)) size ≡ false = ground (arith, length-zeros size) in
    (rw (e, create) (rw (e, new_frame) (rw exact)), length-zeros size, rw (e, new_frame))
