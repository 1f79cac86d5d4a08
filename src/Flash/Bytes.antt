-- ===== src/Flash/Bytes.antt =====
-- Bytes and little-endian numbers at two places that hold the same bytes (include/storage_layout.h,
-- the images that src/config_store.c and src/statistics.c write).
use epi_pico2w_seringue.Prelude.{
  ℕ, zero, suc, ◌+◌, ◌*◌, ◌/◌, ◌%◌, ◌<◌, ◌≡◌, refl, List, [], ◌∷◌, ◌++◌, All, arith,
}
use epi_pico2w_seringue.Flash.{bytes_at, number_at, bytes_of, image}

-- `n` bytes from `o` on in the one are those from `p` on in the other
abbrev pub Agree : (ℕ → ℕ) → ℕ → (ℕ → ℕ) → ℕ → ℕ → Type 0
Agree f o g p n = (i : ℕ) → i < n → f (o + i) ≡ g (p + i)

-- the part from byte `k` on
pub Agree-from :
    (f : ℕ → ℕ) (o : ℕ) (g : ℕ → ℕ) (p k n : ℕ)
    → Agree f o g p (k + n)
    → Agree f (o + k) g (p + k) n
Agree-from f o g p k n h i lt =
    let left : o + k + i ≡ o + (k + i) = omega arith in
    let right : p + k + i ≡ p + (k + i) = omega arith in rw (left, right) (h (k + i) (omega arith))

Agree-head : (f : ℕ → ℕ) (o : ℕ) (g : ℕ → ℕ) (p n : ℕ) → Agree f o g p (suc n) → f o ≡ g p
Agree-head f o g p n h =
    let left : o + 0 ≡ o = omega arith in
    let right : p + 0 ≡ p = omega arith in rw (left, right) at (h 0 (omega arith))

Agree-tail :
    (f : ℕ → ℕ) (o : ℕ) (g : ℕ → ℕ) (p n : ℕ) → Agree f o g p (suc n) → Agree f (o + 1) g (p + 1) n
Agree-tail f o g p n h = Agree-from f o g p 1 n (λ i lt. h i (omega arith))

pub number_at-Agree :
    (f : ℕ → ℕ) (o : ℕ) (g : ℕ → ℕ) (p n : ℕ) → Agree f o g p n → number_at f o n ≡ number_at g p n
unfolding number_at
number_at-Agree f o g p zero h = refl
number_at-Agree f o g p (suc n) h =
    rw (Agree-head f o g p n h, number_at-Agree f (o + 1) g (p + 1) n (Agree-tail f o g p n h))

pub bytes_at-Agree :
    (f : ℕ → ℕ) (o : ℕ) (g : ℕ → ℕ) (p n : ℕ) → Agree f o g p n → bytes_at f o n ≡ bytes_at g p n
unfolding bytes_at
bytes_at-Agree f o g p zero h = refl
bytes_at-Agree f o g p (suc n) h =
    rw (Agree-head f o g p n h, bytes_at-Agree f (o + 1) g (p + 1) n (Agree-tail f o g p n h))

-- the byte of a list, and 0 beyond it
abbrev pub byte_in : List ℕ → ℕ → ℕ
byte_in [] i = 0
byte_in (x ∷ xs) zero = x
byte_in (x ∷ xs) (suc i) = byte_in xs i

abbrev pub AreBytes : List ℕ → Type 0
AreBytes = All (λ p. p < 256)

AreBytes-append : (xs ys : List ℕ) → AreBytes xs → AreBytes ys → AreBytes (xs ++ ys)
AreBytes-append [] ys hx hy = hy
AreBytes-append (x ∷ xs) ys hx hy = (hx.0, AreBytes-append xs ys hx.1 hy)

bytes_of-AreBytes : (n v : ℕ) → AreBytes (bytes_of n v)
unfolding bytes_of
bytes_of-AreBytes zero v = tt
bytes_of-AreBytes (suc n) v = (omega arith, bytes_of-AreBytes n (v / 256))

pub image-AreBytes : (fields : List (ℕ × ℕ)) → AreBytes (image fields)
unfolding image
image-AreBytes [] = tt
image-AreBytes ((n, v) ∷ fields) =
    AreBytes-append (bytes_of n v) (image fields) (bytes_of-AreBytes n v) (image-AreBytes fields)

-- A number that is written in four, two or one bytes is read back.
pub four_bytes :
    (v : ℕ)
    → v < 4294967296
    → v % 256
        + 256
          * (v / 256 % 256
              + 256 * (v / 256 / 256 % 256 + 256 * (v / 256 / 256 / 256 % 256 + 256 * 0)))
      ≡ v
four_bytes v h = omega arith

pub two_bytes : (v : ℕ) → v < 65536 → v % 256 + 256 * (v / 256 % 256 + 256 * 0) ≡ v
two_bytes v h = omega arith

pub one_byte : (v : ℕ) → v < 256 → v % 256 + 256 * 0 ≡ v
one_byte v h = omega arith
