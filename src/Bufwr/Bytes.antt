-- ===== src/Bufwr/Bytes.antt =====
-- Bytes of an array as a list, and memcpy(3) of a list into an array.
use spu_kit.Base.{ℕ, suc, ◌+◌, ◌<◌, ◌≡◌, ◌∙◌, ap, refl, arith, List, [], ◌∷◌, ◌++◌, update}
use Prim.Native.Nat.{zero}
use spu_kit.Base.Lists.{length}

-- The bytes from an offset on, so many.
unfoldable pub load_bytes : (ℕ → ℕ) → ℕ → ℕ → List ℕ
load_bytes buf off zero = []
load_bytes buf off (suc n) = buf off ∷ load_bytes buf (off + 1) n

unfoldable pub store_bytes : (ℕ → ℕ) → ℕ → List ℕ → ℕ → ℕ
store_bytes buf off [] = buf
store_bytes buf off (x ∷ xs) = store_bytes (update buf off x) (off + 1) xs

pub length-load_bytes : (buf : ℕ → ℕ) (off n : ℕ) → length (load_bytes buf off n) ≡ n
unfolding load_bytes
length-load_bytes buf off zero = refl
length-load_bytes buf off (suc n) = ap suc (length-load_bytes buf (off + 1) n)

store-below :
    (buf : ℕ → ℕ) (off : ℕ) (xs : List ℕ) (j : ℕ) → j < off → store_bytes buf off xs j ≡ buf j
unfolding store_bytes
store-below buf off [] j h = refl
store-below buf off (x ∷ xs) j h =
    store-below (update buf off x) (off + 1) xs j (omega arith) ∙ ground arith

load_same :
    (f g : ℕ → ℕ) (off n : ℕ)
    → ((j : ℕ) → j < off + n → f j ≡ g j)
    → load_bytes f off n ≡ load_bytes g off n
unfolding load_bytes
load_same f g off zero h = refl
load_same f g off (suc n) h =
    ap (λ t. t ∷ load_bytes f (off + 1) n) (h off (omega arith))
    ∙ ap (λ t. g off ∷ t) (load_same f g (off + 1) n (λ j l. h j (omega arith)))

load_split :
    (f : ℕ → ℕ) (off m n : ℕ)
    → load_bytes f off (m + n) ≡ load_bytes f off m ++ load_bytes f (off + m) n
unfolding load_bytes
load_split f off zero n =
    let a : 0 + n ≡ n = omega arith in let b : off + 0 ≡ off = omega arith in rw (a, b) refl
load_split f off (suc m) n =
    let a : suc m + n ≡ suc (m + n) = omega arith in
    let b : off + suc m ≡ off + 1 + m = omega arith in
    rw (a, b) (ap (λ t. f off ∷ t) (load_split f (off + 1) m n))

load-store_bytes :
    (buf : ℕ → ℕ) (off : ℕ) (xs : List ℕ) → load_bytes (store_bytes buf off xs) off (length xs) ≡ xs
unfolding load_bytes store_bytes
load-store_bytes buf off [] = refl
load-store_bytes buf off (x ∷ xs) =
    ap (λ t. t ∷ load_bytes (store_bytes (update buf off x) (off + 1) xs) (off + 1) (length xs))
      (store-below (update buf off x) (off + 1) xs off (omega arith) ∙ ground arith)
    ∙ ap (λ t. x ∷ t) (load-store_bytes (update buf off x) (off + 1) xs)

-- Bytes that are stored behind others.
pub load-store_behind :
    (buf : ℕ → ℕ) (cur : ℕ) (xs : List ℕ)
    → load_bytes (store_bytes buf cur xs) 0 (cur + length xs) ≡ load_bytes buf 0 cur ++ xs
load-store_behind buf cur xs =
    load_split (store_bytes buf cur xs) 0 cur (length xs)
    ∙ ap (λ t. t ++ load_bytes (store_bytes buf cur xs) (0 + cur) (length xs))
        (load_same (store_bytes buf cur xs) buf 0 cur
          (λ j l. store-below buf cur xs j (omega arith)))
    ∙ ap (λ t. load_bytes buf 0 cur ++ t)
        (let e : 0 + cur ≡ cur = omega arith in rw e (load-store_bytes buf cur xs))
