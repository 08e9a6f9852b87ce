-- ===== src/Upload/Chunks.antt =====
-- The chunks of a file and their sizes (chunkCount and expectedChunkSize of web/upload/chunk.go).
use Prim.Native.Nat.{min}
use mango_hub.Base.{
  ℕ, zero, suc, ◌+◌, ◌-◌, ◌*◌, ◌≤◌, ◌<◌, ◌≡◌, ◌↔◌, refl, ap, ◌∙◌, none, some, [], ◌∷◌, ◌++◌, arith,
  length, take, drop, length-take, length-drop, Bytes, ◌==◌, ==_iff, sym, ◌||◌,
}
use mango_hub.Base.Int.{pos, ltb_ℤ, leb_ℤ}
use mango_hub.Base.Branch.{either_by, if_false}
use mango_hub.FileManager.Tiling.{count_iff}
use mango_hub.Upload.{chunk_size, chunk_count, expected_chunk_size}

pub chunk_count_iff : (size i : ℕ) → (i < chunk_count size) ↔ (i * chunk_size < size)
unfolding chunk_count chunk_size
chunk_count_iff size i = count_iff size chunk_size i (omega arith)

-- The part of a file with this index.
pub slice : Bytes → ℕ → Bytes
slice content i = take chunk_size (drop (i * chunk_size) content)

pub length-slice :
    (content : Bytes) (i : ℕ)
    → length (slice content i) ≡ min chunk_size (length content - i * chunk_size)
unfolding slice
length-slice content i =
    length-take chunk_size (drop (i * chunk_size) content)
    ∙ ap (min chunk_size) (length-drop (i * chunk_size) content)

take-nil : (n : ℕ) → take {A = ℕ} n [] ≡ []
take-nil zero = refl
take-nil (suc n) = refl

take_add : (a b : ℕ) (xs : Bytes) → take a xs ++ take b (drop a xs) ≡ take (a + b) xs
take_add zero b xs = ap (λ n. take n xs) (omega arith)
take_add (suc a) b [] = take-nil b ∙ sym (take-nil (suc a + b))
take_add (suc a) b (x ∷ xs) =
    let sum : suc (a + b) ≡ suc a + b = omega arith in
    ap (λ l. x ∷ l) (take_add a b xs) ∙ ap (λ n. take n (x ∷ xs)) sum

last_chunk : (size i : ℕ) → i + 1 ≡ chunk_count size → size ≤ i * chunk_size + chunk_size
last_chunk size i e =
    let next = (chunk_count_iff size (suc i)).1 in
    let grown : suc i * chunk_size ≡ i * chunk_size + chunk_size =
      unfold chunk_size in omega arith in
    ground (arith, next, grown)

inner_chunk : (size i : ℕ) → i + 1 < chunk_count size → i * chunk_size + chunk_size < size
inner_chunk size i h =
    let next = (chunk_count_iff size (suc i)).0 (omega arith) in
    let grown : suc i * chunk_size ≡ i * chunk_size + chunk_size =
      unfold chunk_size in omega arith in
    omega (arith, next, grown)

pub append-take-slice :
    (content : Bytes) (i : ℕ)
    → take (i * chunk_size) content ++ slice content i ≡ take (suc i * chunk_size) content
unfolding slice
append-take-slice content i =
    let grown : i * chunk_size + chunk_size ≡ suc i * chunk_size =
      unfold chunk_size in omega arith in
    take_add (i * chunk_size) chunk_size content ∙ ap (λ n. take n content) grown

-- A chunk within the file is expected with the bytes that the file has for it.
pub expected_chunk_size-min :
    (size i : ℕ)
    → i * chunk_size < size
    → expected_chunk_size size (pos i) ≡ some (min chunk_size (size - i * chunk_size))
unfolding expected_chunk_size
expected_chunk_size-min size i h =
    let inside = (chunk_count_iff size i).1 h in
    let next = chunk_count_iff size (suc i) in
    if_false (λ o. o ≡ some (min chunk_size (size - i * chunk_size))) none
      (ltb_ℤ (pos i) (pos 0) || leb_ℤ (pos (chunk_count size)) (pos i)) (ground arith)
      (either_by (λ o. o ≡ some (min chunk_size (size - i * chunk_size)))
        (i + 1 == chunk_count size)
        (λ e. ap some (let l = last_chunk size i ((==_iff _ _).0 e) in omega (arith, l)))
        (λ e. ap some (let l = inner_chunk size i (ground (arith, e, inside)) in omega (arith, l))))
