-- ===== src/Signals/Chunks.antt =====
-- `sliceIntoChunks` of postCallAnalysisTrigger/utils.js, of which
-- multiorgPostCallAnalysisTrigger/utils.js has a copy.
use service_cloud_voice_lamb.Common.{
  ℕ, zero, suc, ◌+◌, ◌-◌, ◌≤◌, ◌≡◌, refl, sym, ap, ◌∙◌, true, false, Option, none, some, All, List,
  [], ◌∷◌, ◌++◌, length, take, drop, take-append-drop, length-take, length-drop, length-append,
  if◌then◌else◌, ltb, arith, Bool-cases, inl, inr,
}

module _ {ℓ} {A : Type ℓ} where
  -- `arr.slice(i, j)`
  abbrev pub slice : List A → ℕ → ℕ → List A
  slice arr i j = take (j - i) (drop i arr)

  abbrev pub cons_chunk : List A → Option (List (List A)) → Option (List (List A))
  cons_chunk chunk none = none
  cons_chunk chunk (some rest) = some (chunk ∷ rest)

  -- The loop from `i` on, with at most `fuel` tests of its condition.
  unfoldable pub slice_from : ℕ → List A → ℕ → ℕ → Option (List (List A))
  slice_from zero arr chunk_size i = none
  slice_from (suc fuel) arr chunk_size i =
      let rest = slice_from fuel arr chunk_size (i + chunk_size) in
      if ltb i (length arr) then cons_chunk (slice arr i (i + chunk_size)) rest else some []

  -- One round for each element, and the last test, are enough for chunks that are not empty.
  unfoldable pub slice_into_chunks : List A → ℕ → Option (List (List A))
  unfolding slice_from
  slice_into_chunks arr chunk_size = slice_from (suc (length arr)) arr chunk_size 0

  abbrev pub concat : List (List A) → List A
  concat [] = []
  concat (chunk ∷ rest) = chunk ++ concat rest

  -- Every chunk but the last has the given size, and the last is not empty and not larger.
  abbrev pub AreFull : ℕ → List (List A) → Type 0
  AreFull size [] = Unit
  AreFull size (chunk ∷ []) = (1 ≤ length chunk) × (length chunk ≤ size)
  AreFull size (chunk ∷ next ∷ rest) = (length chunk ≡ size) × AreFull size (next ∷ rest)

  drop-past : (i : ℕ) (arr : List A) → length arr ≤ i → drop i arr ≡ []
  drop-past zero [] h = refl
  drop-past zero (x ∷ arr) h = absurd (omega (arith, h))
  drop-past (suc i) [] h = refl
  drop-past (suc i) (x ∷ arr) h = drop-past i arr (omega (arith, h))

  drop-drop : (i j : ℕ) (arr : List A) → drop j (drop i arr) ≡ drop (i + j) arr
  drop-drop zero j arr = let e : 0 + j ≡ j = omega arith in rw e refl
  drop-drop (suc i) zero [] = let e : suc i + 0 ≡ suc i = omega arith in rw e refl
  drop-drop (suc i) (suc j) [] =
      let e : suc i + suc j ≡ suc (suc (i + j)) = omega arith in rw e refl
  drop-drop (suc i) j (x ∷ arr) =
      let e : suc i + j ≡ suc (i + j) = omega arith in rw e (drop-drop i j arr)

  concat-filled :
      (k : ℕ) (next : List A) (rest : List (List A))
      → AreFull (suc k) (next ∷ rest)
      → 1 ≤ length (concat (next ∷ rest))
  concat-filled k next [] (h, h') = omega (arith, h, length-append next [])
  concat-filled k next (more ∷ rest) (h, h') =
      omega (arith, h, length-append next (concat (more ∷ rest)))

  cons-AreFull :
      (k : ℕ) (chunk : List A) (bs : List (List A))
      → AreFull (suc k) bs
      → 1 ≤ length chunk
      → length chunk ≤ suc k
      → (1 ≤ length (concat bs) → length chunk ≡ suc k)
      → AreFull (suc k) (chunk ∷ bs)
  cons-AreFull k chunk [] h p q r = (p, q)
  cons-AreFull k chunk (next ∷ rest) h p q r = (r (concat-filled k next rest h), h)

  abbrev pub Sized : ℕ → List A → Type 0
  Sized size chunk = (1 ≤ length chunk) × (length chunk ≤ size)

  pub AreFull-Sized : (k : ℕ) (bs : List (List A)) → AreFull (suc k) bs → All (Sized (suc k)) bs
  AreFull-Sized k [] h = tt
  AreFull-Sized k (chunk ∷ []) h = (h, tt)
  AreFull-Sized k (chunk ∷ next ∷ rest) (p, h) =
      ((omega (arith, p), omega (arith, p)), AreFull-Sized k (next ∷ rest) h)

  abbrev IsRun : ℕ → ℕ → List A → ℕ → Type ℓ
  IsRun fuel size arr i =
      (bs : List (List A)) × (slice_from fuel arr size i ≡ some bs)
      × (concat bs ≡ drop i arr)
      × AreFull size bs

  ends-IsRun :
      (m : ℕ) (arr : List A) (k i : ℕ) → ltb i (length arr) ≡ false → IsRun (suc m) (suc k) arr i
  unfolding slice_from
  ends-IsRun m arr k i p = ([], rw p refl, sym (drop-past i arr (ground (arith, p))), tt)

  round-IsRun :
      (m : ℕ) (arr : List A) (k i : ℕ)
      → ltb i (length arr) ≡ true
      → suc i ≤ length arr
      → IsRun m (suc k) arr (i + suc k)
      → IsRun (suc m) (suc k) arr i
  unfolding slice_from
  round-IsRun m arr k i p q (bs, run, whole, full) =
      let chunk = slice arr i (i + suc k) in
      let n = length-take (i + suc k - i) (drop i arr) in
      let l = length-drop i arr in
      let w : length (concat bs) ≡ length arr - (i + suc k) =
        ap length whole ∙ length-drop (i + suc k) arr in
      let e : i + suc k - i ≡ suc k = omega arith in
      (
        chunk ∷ bs,
        rw (p, run) refl,
        rw (whole, sym (drop-drop i (suc k) arr), e) (take-append-drop (suc k) (drop i arr)),
        cons-AreFull k chunk bs full (omega (arith, n, l, q)) (omega (arith, n, l, q))
            (λ f. omega (arith, n, l, q, w, f)),
      )

  loop-IsRun : (m : ℕ) (arr : List A) (k i : ℕ) → length arr ≤ i + m → IsRun (suc m) (suc k) arr i
  loop-IsRun zero arr k i h = ends-IsRun zero arr k i (ground (arith, h))
  loop-IsRun (suc m) arr k i h = elim (Bool-cases (ltb i (length arr))) [
    | inr p ↦ ends-IsRun (suc m) arr k i p
    | inl p ↦
        round-IsRun (suc m) arr k i p (ground (arith, p))
          (loop-IsRun m arr k (i + suc k) (omega (arith, h)))
  ]

  -- For a positive chunk size the loop ends, and what it collects is the array cut in order into
  -- chunks of that size, of which only the last may be shorter and none is empty.
  pub slice_into_chunks-cut :
      (arr : List A) (k : ℕ)
      → (bs : List (List A)) × (slice_into_chunks arr (suc k) ≡ some bs)
        × (concat bs ≡ arr)
        × AreFull (suc k) bs
  unfolding slice_into_chunks
  slice_into_chunks-cut arr k = loop-IsRun (length arr) arr k 0 (omega arith)
