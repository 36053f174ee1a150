-- ===== src/Sdk/Multipart.antt =====
-- sdk/pyuploadx/multipart.py: how a file is cut into the bodies of its parts.
use pyupload_x.Base.{
  ℕ, zero, suc, ◌+◌, ◌-◌, ◌*◌, ◌≤◌, min, ◌≡◌, sym, ap, ◌∙◌, inl, inr, [], ◌∷◌, ◌++◌, map, arith,
  leb, leb→le, Bool-cases, length, take, drop, length-drop, take-all, drop-drop, range,
}
use pyupload_x.Storage.{Bytes}
use pyupload_x.Storage.Chunks.{concat, take-nil}

-- `file.seek(offset)` and `file.read(size)` of `upload_part`, where the session has the file's size
unfoldable pub part_body : ℕ → Bytes → ℕ → Bytes
part_body part_size content part_number =
    let offset = (part_number - 1) * part_size in
    take (min part_size (length content - offset)) (drop offset content)

take-min : (n : ℕ) (b : Bytes) (m : ℕ) → length b ≤ m → take (min n m) b ≡ take n b
take-min n b m h = elim (Bool-cases (leb n m)) [
  | inl e ↦ ap (λ k. take k b) {x = min n m} {y = n} (omega (arith, leb→le n m e))
  | inr e ↦
      let above : m ≤ n = ground arith in
      take-all (min n m) b (omega arith) ∙ sym (take-all n b (omega arith))
]

take_add : (m n : ℕ) (b : Bytes) → take m b ++ take n (drop m b) ≡ take (m + n) b
take_add zero n b = ap (λ k. take k b) {x = n} {y = 0 + n} (omega arith)
take_add (suc m) n [] = take-nil n ∙ sym (take-nil (suc m + n))
take_add (suc m) n (x ∷ b) =
    ap (λ r. x ∷ r) (take_add m n b)
    ∙ ap (λ k. take k (x ∷ b)) {x = suc (m + n)} {y = suc m + n} (omega arith)

part_body-eq :
    (part_size k : ℕ) (content : Bytes)
    → part_body part_size content (suc k) ≡ take part_size (drop (k * part_size) content)
unfolding part_body
part_body-eq part_size k content =
    ap (λ j. take (min part_size (length content - j * part_size)) (drop (j * part_size) content))
      {x = suc k - 1} {y = k} (omega arith)
    ∙ take-min part_size (drop (k * part_size) content) (length content - k * part_size)
        (omega (arith, length-drop (k * part_size) content))

next_drop :
    (part_size k : ℕ) (content : Bytes)
    → drop (suc k * part_size) content ≡ drop part_size (drop (k * part_size) content)
next_drop part_size k content =
    ap (λ j. drop j content) {x = suc k * part_size} {y = k * part_size + part_size} (grind arith)
    ∙ sym (drop-drop part_size (k * part_size) content)

-- the bodies of `count` parts after the first `k`
concat-part_body :
    (part_size k count : ℕ) (content : Bytes)
    → concat (map (part_body part_size content) (range (suc k) count))
      ≡ take (count * part_size) (drop (k * part_size) content)
unfolding concat
concat-part_body part_size k zero content =
    ap (λ j. take j (drop (k * part_size) content)) {x = 0} {y = 0 * part_size} (omega arith)
concat-part_body part_size k (suc count) content =
    let rest = drop (k * part_size) content in
    ap (λ r. r ++ concat (map (part_body part_size content) (range (suc (suc k)) count)))
      (part_body-eq part_size k content)
    ∙ ap (λ r. take part_size rest ++ r) (concat-part_body part_size (suc k) count content)
    ∙ ap (λ r. take part_size rest ++ take (count * part_size) r) (next_drop part_size k content)
    ∙ take_add part_size (count * part_size) rest
    ∙ ap (λ j. take j rest) {x = part_size + count * part_size} {y = suc count * part_size}
        (grind arith)

-- The bodies of the parts are together the file, if there are enough parts.
pub concat-part_body-all :
    (part_size total_parts : ℕ) (content : Bytes)
    → length content ≤ total_parts * part_size
    → concat (map (part_body part_size content) (range 1 total_parts)) ≡ content
concat-part_body-all part_size total_parts content h =
    concat-part_body part_size 0 total_parts content
    ∙ ap (λ j. take (total_parts * part_size) (drop j content)) {x = 0 * part_size} {y = 0}
        (omega arith)
    ∙ take-all (total_parts * part_size) content h
