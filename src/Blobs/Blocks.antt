-- ===== src/Blobs/Blocks.antt =====
-- `hash_blocks_sha256` of modal/_utils/blob_utils.py: a hash for each block of a file. The hash is a
-- parameter; a read may give fewer bytes than it asks for.
use modal_client.Prelude.{
  ℕ, zero, suc, ◌+◌, ◌-◌, ◌*◌, ◌/◌, ◌≤◌, ◌<◌, ◌≡◌, refl, sym, ◌∙◌, ap, min, ltb, false, Bool-cases,
  inl, inr, length, take-append, take-append-drop, drop-drop, drop-all, take, drop, concat, List,
  [], ◌∷◌, ◌++◌, map, if◌then◌else◌, arith, All,
}
use modal_client.Blobs.Segment.{Bytes}

abbrev pub block_size : ℕ
block_size = 8 * 1024 * 1024

-- `-(a // -b)`: the quotient, rounded up
abbrev pub ceildiv : ℕ → ℕ → ℕ
ceildiv a b = (a + b - 1) / b

-- how many bytes a read gives that asks for n, from a position on: at least one, if there are any
abbrev pub Reader : Type 0
Reader = Bytes → ℕ → ℕ

-- the inner loop, with fuel: what is fed to the hash
abbrev pub more_of : (ℕ → Bytes) → Bytes → ℕ → Bytes
more_of again [] n = []
more_of again (c ∷ cs) n = (c ∷ cs) ++ again (n + length (c ∷ cs))

unfoldable pub read_block : Reader → ℕ → ℕ → Bytes → ℕ → Bytes
read_block reader size zero left num_bytes_read = []
read_block reader size (suc fuel) left num_bytes_read =
    let chunk = take (min (reader left (size - num_bytes_read)) (size - num_bytes_read)) left in
    if ltb num_bytes_read size
    then more_of (λ n. read_block reader size fuel (drop (length chunk) left) n) chunk
        num_bytes_read
    else []

unfoldable pub block : Reader → Bytes → ℕ → ℕ → Bytes
unfolding read_block
block reader content size block_idx =
    read_block reader size (size + 1) (drop (block_idx * size) content) 0

unfoldable pub blocks_from : Reader → Bytes → ℕ → ℕ → ℕ → List Bytes
blocks_from reader content size zero idx = []
blocks_from reader content size (suc n) idx =
    block reader content size idx ∷ blocks_from reader content size n (idx + 1)

module _ (D : Type 0) (sha256 : Bytes → D) where
  unfoldable pub hash_blocks_sha256 : Reader → Bytes → ℕ → List D
  hash_blocks_sha256 reader content size =
      map sha256 (blocks_from reader content block_size (ceildiv size block_size) 0)

-- a reader that gives a byte where there is one
abbrev pub IsReader : Reader → Type 0
IsReader reader = (left : Bytes) (n : ℕ) → 0 < reader left n

take-nil : (n : ℕ) → take {A = ℕ} n [] ≡ []
take-nil zero = refl
take-nil (suc n) = refl

take-length-take : (m : ℕ) (xs : Bytes) → take (length (take m xs)) xs ≡ take m xs
take-length-take zero xs = refl
take-length-take (suc m) [] = refl
take-length-take (suc m) (x ∷ xs) = cc (take-length-take m xs)

length-take-le : (m : ℕ) (xs : Bytes) → length (take m xs) ≤ m
length-take-le zero xs = omega arith
length-take-le (suc m) [] = omega arith
length-take-le (suc m) (x ∷ xs) = omega (arith, length-take-le m xs)

-- a chunk and what is read after it
more_of-take :
    (again : ℕ → Bytes) (left : Bytes) (m k n : ℕ)
    → 0 < m
    → m ≤ k
    → ((0 < length (take m left))
        → again (n + length (take m left))
          ≡ take (k - length (take m left)) (drop (length (take m left)) left))
    → more_of again (take m left) n ≡ take k left
more_of-take again left zero k n pos le h = absurd (omega (arith, pos))
more_of-take again [] (suc m) k n pos le h = sym (take-nil k)
more_of-take again (x ∷ xs) (suc m) k n pos le h =
    let whole : Bytes = x ∷ xs in
    let len : ℕ = length (take (suc m) whole) in
    ap (λ ys. take (suc m) whole ++ ys) (h (omega arith))
    ∙ ap (λ ys. ys ++ take (k - len) (drop len whole)) (sym (take-length-take (suc m) whole))
    ∙ sym (take-append k len (k - len) whole (omega (arith, le, length-take-le (suc m) whole)))

read_block-take :
    (reader : Reader) (size fuel : ℕ) (left : Bytes) (n : ℕ)
    → IsReader reader
    → n ≤ size
    → size - n < fuel
    → read_block reader size fuel left n ≡ take (size - n) left
unfolding read_block
read_block-take reader size zero left n gives le enough = absurd (omega (arith, enough))
read_block-take reader size (suc fuel) left n gives le enough = elim (Bool-cases (ltb n size)) [
  | inr full ↦ rw full (sym (ap (λ k. take k left) (over full)))
  | inl more ↦ rw more (
      let m : ℕ = min (reader left (size - n)) (size - n) in
      more_of-take (λ n. read_block reader size fuel (drop (length (take m left)) left) n) left m
        (size - n) n (ground (arith, more, gives left (size - n))) (omega arith)
        (λ some_bytes.
          read_block-take reader size fuel (drop (length (take m left)) left)
            (n + length (take m left)) gives (omega (arith, length-take-le m left, le))
            (omega (arith, enough, some_bytes, length-take-le m left))
          ∙ ap (λ k. take k (drop (length (take m left)) left)) (omega arith)))
]
  where
    over : ltb n size ≡ false → size - n ≡ 0
    over full = ground (arith, full, le)

block-take :
    (reader : Reader) (content : Bytes) (size idx : ℕ)
    → IsReader reader
    → block reader content size idx ≡ take size (drop (idx * size) content)
unfolding block
block-take reader content size idx gives =
    read_block-take reader size (size + 1) (drop (idx * size) content) 0 gives (omega arith)
      (omega arith)
    ∙ ap (λ k. take k (drop (idx * size) content)) (omega arith)

blocks_from-concat :
    (reader : Reader) (content : Bytes) (size n idx : ℕ)
    → IsReader reader
    → length content ≤ (idx + n) * size
    → concat (blocks_from reader content size n idx) ≡ drop (idx * size) content
unfolding blocks_from
blocks_from-concat reader content size zero idx gives enough =
    sym (drop-all (idx * size) content (grind (arith, enough)))
blocks_from-concat reader content size (suc n) idx gives enough =
    rw
      (
        block-take reader content size idx gives,
        blocks_from-concat reader content size n (idx + 1) gives (grind (arith, enough)),
      )
      (ap (λ xs. take size (drop (idx * size) content) ++ xs)
          (sym (drop-drop (idx * size) size ((idx + 1) * size) content (grind arith)))
        ∙ take-append-drop size (drop (idx * size) content))

blocks_from-small :
    (reader : Reader) (content : Bytes) (size n idx : ℕ)
    → IsReader reader
    → All (λ b. length b ≤ size) (blocks_from reader content size n idx)
      × (length (blocks_from reader content size n idx) ≡ n)
unfolding blocks_from
blocks_from-small reader content size zero idx gives = (tt, refl)
blocks_from-small reader content size (suc n) idx gives =
    let (small, counted) = blocks_from-small reader content size n (idx + 1) gives in
    (
      (
        rw (block-take reader content size idx gives)
            (length-take-le size (drop (idx * size) content)),
        small,
      ),
      ap suc counted,
    )

-- However few bytes each read gives, if the size is that of the file, the hashes are those of the blocks of the file in order: as many
-- blocks as the size needs, none larger than 8 MiB, and together the file.
pub hash_blocks_sha256-blocks :
    (D : Type 0) (sha256 : Bytes → D) (reader : Reader) (content : Bytes)
    → IsReader reader
    → (blocks : List Bytes) × (hash_blocks_sha256 D sha256 reader content (length content)
        ≡ map sha256 blocks)
      × (concat blocks ≡ content)
      × All (λ b. length b ≤ block_size) blocks
      × (length blocks ≡ ceildiv (length content) block_size)
unfolding hash_blocks_sha256
hash_blocks_sha256-blocks D sha256 reader content gives =
    let n : ℕ = ceildiv (length content) block_size in
    let (small, counted) = blocks_from-small reader content block_size n 0 gives in
    (
      blocks_from reader content block_size n 0,
      refl,
      blocks_from-concat reader content block_size n 0 gives (omega arith),
      small,
      counted,
    )
