-- ===== src/Storage/Chunks.antt =====
-- app/storage/local.py: reading in chunks of at most 1 MiB, until a read returns nothing.
use pyupload_x.Base.{
  All, ◌≤◌, Bool-cases, length-take, ℕ, zero, suc, ◌-◌, ◌*◌, ◌<◌, min, ◌≡◌, refl, ap, ◌∙◌, Bool,
  true, false, ◌||◌, Option, none, some, List, [], ◌∷◌, ◌++◌, arith, ◌==◌, if◌then◌else◌, length,
  take, drop, length-drop, take-append-drop, sym, ◌≢◌, inl, inr,
}
use pyupload_x.Storage.{Bytes}

abbrev pub chunk_bytes : ℕ
chunk_bytes = 1024 * 1024

abbrev pub is_nothing : Bytes → Bool
is_nothing [] = true
is_nothing (x ∷ b) = false

-- What the loops that copy a stream read and write, on fuel.
unfoldable pub copied : ℕ → ℕ → Bytes → Bytes
copied chunk zero stream = []
copied chunk (suc fuel) stream =
    let rest = take chunk stream ++ copied chunk fuel (drop chunk stream) in
    if is_nothing (take chunk stream) then [] else rest

-- `remaining is not None and not remaining > 0`
abbrev pub is_exhausted : Option ℕ → Bool
is_exhausted none = false
is_exhausted (some n) = n == 0

abbrev pub read_size : ℕ → Option ℕ → ℕ
read_size chunk none = chunk
read_size chunk (some n) = min chunk n

abbrev pub remaining_after : Option ℕ → ℕ → Option ℕ
remaining_after none read = none
remaining_after (some n) read = some (n - read)

-- The chunks that `get_object` yields from a position on, on fuel.
unfoldable pub read_chunks : ℕ → ℕ → Option ℕ → Bytes → List Bytes
read_chunks chunk zero remaining rest = []
read_chunks chunk (suc fuel) remaining rest =
    let got = take (read_size chunk remaining) rest in
    let more =
      got
      ∷ read_chunks chunk fuel (remaining_after remaining (length got))
          (drop (read_size chunk remaining) rest) in
    if is_exhausted remaining || is_nothing got then [] else more

unfoldable pub concat : List Bytes → Bytes
concat [] = []
concat (b ∷ bs) = b ++ concat bs

-- A length that is not given means all.
abbrev pub limited : Option ℕ → Bytes → Bytes
limited none b = b
limited (some n) b = take n b

false_ne_true : false ≢ true
false_ne_true e = cc

take-nothing : (n : ℕ) (b : Bytes) → 0 < n → is_nothing (take n b) ≡ is_nothing b
take-nothing zero b h = absurd (omega arith)
take-nothing (suc n) [] h = refl
take-nothing (suc n) (x ∷ b) h = refl

-- With fuel for each byte, all is copied.
pub copied-all :
    (chunk fuel : ℕ) (stream : Bytes)
    → 0 < chunk
    → length stream < fuel
    → copied chunk fuel stream ≡ stream
unfolding copied
copied-all chunk zero stream h k = absurd (omega arith)
copied-all chunk (suc fuel) [] h k = rw (take-nothing chunk [] h) refl
copied-all chunk (suc fuel) (x ∷ b) h k = rw (take-nothing chunk (x ∷ b) h) (
    ap (λ r. take chunk (x ∷ b) ++ r)
      (copied-all chunk fuel (drop chunk (x ∷ b)) h (omega (arith, length-drop chunk (x ∷ b))))
    ∙ take-append-drop chunk (x ∷ b))

-- A chunk is as large as a read may be, and never empty.
abbrev pub IsChunk : ℕ → Bytes → Type 0
IsChunk chunk b = (0 < length b) × (length b ≤ chunk)

nonempty-length : (b : Bytes) → is_nothing b ≡ false → 0 < length b
nonempty-length [] h = cc
nonempty-length (x ∷ b) h = omega arith

read_size-le : (chunk : ℕ) (remaining : Option ℕ) → read_size chunk remaining ≤ chunk
read_size-le chunk none = omega arith
read_size-le chunk (some n) = omega arith

pub take-nil : (n : ℕ) → take {A = ℕ} n [] ≡ []
take-nil zero = refl
take-nil (suc n) = refl

take-append_take :
    (s n : ℕ) (b : Bytes) → s ≤ n → take s b ++ take (n - length (take s b)) (drop s b) ≡ take n b
take-append_take zero n b h = ap (λ k. take k b) {x = n - 0} {y = n} (omega arith)
take-append_take (suc s) n [] h = take-nil (n - 0) ∙ sym (take-nil n)
take-append_take (suc s) zero (x ∷ b) h = absurd (omega arith)
take-append_take (suc s) (suc n) (x ∷ b) h =
    ap (λ r. x ∷ r)
      (ap (λ k. take s b ++ take k (drop s b)) {x = suc n - suc (length (take s b))}
          {y = n - length (take s b)} (omega arith)
        ∙ take-append_take s n b (omega arith))

-- one round of the loop
read_once :
    (chunk : ℕ) (remaining : Option ℕ) (b : Bytes)
    → take (read_size chunk remaining) b
        ++ limited
            (remaining_after remaining (length (take (read_size chunk remaining) b)))
            (drop (read_size chunk remaining) b)
      ≡ limited remaining b
read_once chunk none b = take-append-drop chunk b
read_once chunk (some n) b = take-append_take (min chunk n) n b (omega arith)

-- the end of the loop
read_all :
    (chunk : ℕ) (remaining : Option ℕ) (b : Bytes)
    → 0 < chunk
    → (is_exhausted remaining || is_nothing (take (read_size chunk remaining) b)) ≡ true
    → limited remaining b ≡ []
read_all chunk none [] h e = refl
read_all chunk none (x ∷ b) h e = absurd (false_ne_true (sym (take-nothing chunk (x ∷ b) h) ∙ e))
read_all chunk (some zero) b h e = refl
read_all chunk (some (suc n)) [] h e = refl
read_all chunk (some (suc n)) (x ∷ b) h e = ground (arith, take-nothing (min chunk (suc n)) (x ∷ b))

pub read_chunks-IsChunk :
    (chunk fuel : ℕ) (remaining : Option ℕ) (b : Bytes)
    → All (IsChunk chunk) (read_chunks chunk fuel remaining b)
unfolding read_chunks
read_chunks-IsChunk chunk zero remaining b = tt
read_chunks-IsChunk chunk (suc fuel) remaining b =
    let got = take (read_size chunk remaining) b in
    elim (Bool-cases (is_exhausted remaining || is_nothing got)) [
      | inl e ↦ rw e tt
      | inr e ↦ rw e (
        (
          nonempty-length got (ground arith),
          omega (arith, length-take (read_size chunk remaining) b, read_size-le chunk remaining),
        ),
        read_chunks-IsChunk chunk fuel (remaining_after remaining (length got))
            (drop (read_size chunk remaining) b),
      )
    ]

-- With fuel for each byte, the chunks are the bytes from the position on, up to the length.
pub concat-read_chunks :
    (chunk fuel : ℕ) (remaining : Option ℕ) (b : Bytes)
    → 0 < chunk
    → length b < fuel
    → concat (read_chunks chunk fuel remaining b) ≡ limited remaining b
unfolding read_chunks concat
concat-read_chunks chunk zero remaining b h k = absurd (omega arith)
concat-read_chunks chunk (suc fuel) remaining b h k =
    let got = take (read_size chunk remaining) b in
    elim (Bool-cases (is_exhausted remaining || is_nothing got)) [
      | inl e ↦ rw e (sym (read_all chunk remaining b h e))
      | inr e ↦ rw e (
          ap (λ r. got ++ r)
            (concat-read_chunks chunk fuel (remaining_after remaining (length got))
              (drop (read_size chunk remaining) b) h
              (omega (
                arith,
                nonempty-length got (ground arith),
                length-take (read_size chunk remaining) b,
                length-drop (read_size chunk remaining) b,
              )))
          ∙ read_once chunk remaining b)
    ]
