-- ===== src/Buckets/Owned/Rows.antt =====
-- The rows of `storage_buckets` beside the buckets that exist at the backend.
use pyupload_x.Base.{
  ℕ, ◌≤◌, ◌<◌, ◌≡◌, ap, subst, inl, inr, Bool, true, false, not, ◌&&◌, ◌||◌, some, List, [], ◌∷◌,
  ◌++◌, arith, ◌==◌, ==_refl, Bool-cases, select, find, All, All-append, Text, text_eq, text_eq→eq,
}
use pyupload_x.Errors.{ok}
use pyupload_x.Db.Rows.{StorageBucket}
use pyupload_x.Buckets.{is_bucket}
use pyupload_x.Buckets.Names.{matches_bucket_name, has_two_dots, validate_name}
use pyupload_x.Buckets.Listing.{text_eq_comm}

abbrev pub IsBucketName : Text → Type 0
IsBucketName s = (matches_bucket_name s && not (has_two_dots s)) ≡ true

pub validate_name-IsBucketName : (raw s : Text) → validate_name raw ≡ ok s → IsBucketName s
unfolding validate_name
validate_name-IsBucketName raw s h = ground arith

abbrev pub AreApart : StorageBucket → StorageBucket → Type 0
AreApart b c = ((c.id == b.id) ≡ false) × (text_eq c.name b.name ≡ false)

-- Each row has a valid name of its own, whichever its tenant, and its bucket is at the backend.
abbrev pub AreOwned : (Text → Bool) → ℕ → List StorageBucket → Type 0
AreOwned exists next [] = Unit
AreOwned exists next (b ∷ bs) =
    (b.id < next)
    × IsBucketName b.name
    × (exists b.name ≡ true)
    × All (AreApart b) bs
    × AreOwned exists next bs

pub AreOwned-mono :
    (exists exists' : Text → Bool) (next next' : ℕ) (bs : List StorageBucket)
    → next ≤ next'
    → ((m : Text) → IsBucketName m → exists m ≡ true → exists' m ≡ true)
    → AreOwned exists next bs
    → AreOwned exists' next' bs
AreOwned-mono exists exists' next next' [] h k o = tt
AreOwned-mono exists exists' next next' (b ∷ bs) h k (low, named, there, apart, rest) = (
  omega arith,
  named,
  k b.name named there,
  apart,
  AreOwned-mono exists exists' next next' bs h k rest,
)

AreApart-append :
    (b c : StorageBucket) (bs : List StorageBucket)
    → All (AreApart b) bs
    → AreApart b c
    → All (AreApart b) (bs ++ c ∷ [])
AreApart-append b c bs h k = All-append (AreApart b) bs (c ∷ []) h (k, tt)

pub AreOwned-append :
    (exists : Text → Bool) (next : ℕ) (c : StorageBucket) (bs : List StorageBucket)
    → AreOwned exists next bs
    → All (λ b. AreApart b c) bs
    → c.id < next
    → IsBucketName c.name
    → exists c.name ≡ true
    → AreOwned exists next (bs ++ c ∷ [])
AreOwned-append exists next c [] o h low named there = (low, named, there, tt, tt)
AreOwned-append exists next c (b ∷ bs) (low', named', there', apart, rest) h low named there = (
  low',
  named',
  there',
  AreApart-append b c bs apart h.0,
  AreOwned-append exists next c bs rest h.1 low named there,
)

text_apart : (f : Text → Bool) (s t : Text) → f s ≡ false → f t ≡ true → text_eq s t ≡ false
text_apart f s t h k = elim (Bool-cases (text_eq s t)) [
  | inl e ↦ let same = ap f (text_eq→eq s t e) in cc
  | inr e ↦ e
]

-- A bucket that is not at the backend is no row's, of whichever tenant, and a new key is no row's.
pub new-AreApart :
    (exists : Text → Bool) (next : ℕ) (c : StorageBucket) (bs : List StorageBucket)
    → AreOwned exists next bs
    → next ≤ c.id
    → exists c.name ≡ false
    → All (λ b. AreApart b c) bs
new-AreApart exists next c [] o h k = tt
new-AreApart exists next c (b ∷ bs) (low, named, there, apart, rest) h k = (
  (ground arith, text_apart exists c.name b.name k there),
  new-AreApart exists next c bs rest h k,
)

abbrev pub IsOther : StorageBucket → StorageBucket → Type 0
IsOther b c = ((c.id == b.id) || not (text_eq c.name b.name)) ≡ true

find-All :
    (p : StorageBucket → Bool) (P : StorageBucket → Type 0) (bs : List StorageBucket)
    (b : StorageBucket)
    → find p bs ≡ some b
    → All P bs
    → P b × (p b ≡ true)
find-All p P [] b h k = cc
find-All p P (c ∷ cs) b h k = elim (Bool-cases (p c)) [
  | inl e ↦ let same : c ≡ b = ground arith in subst (λ d. P d × (p d ≡ true)) same (k.0, e)
  | inr e ↦ find-All p P cs b (ground arith) k.1
]

AreApart-IsOther :
    (b : StorageBucket) (bs : List StorageBucket) → All (AreApart b) bs → All (IsOther b) bs
AreApart-IsOther b [] h = tt
AreApart-IsOther b (c ∷ cs) h = (ground (arith, h.0), AreApart-IsOther b cs h.1)

pub found-IsOther :
    (exists : Text → Bool) (next : ℕ) (p : StorageBucket → Bool) (bs : List StorageBucket)
    (b : StorageBucket)
    → AreOwned exists next bs
    → find p bs ≡ some b
    → All (IsOther b) bs
found-IsOther exists next p [] b o h = tt
found-IsOther exists next p (c ∷ cs) b (low, named, there, apart, rest) h =
    elim (Bool-cases (p c)) [
      | inl e ↦
          let same : c ≡ b = ground arith in
          subst (λ d. All (IsOther d) (c ∷ cs)) same
            (ground (arith, ==_refl c.id), AreApart-IsOther c cs apart)
      | inr e ↦ (
        let (other, found) = find-All p (AreApart c) cs b (ground arith) apart in
            ground (arith, other, text_eq_comm b.name c.name),
        found-IsOther exists next p cs b rest (ground arith),
      )
    ]

select-AreApart :
    (b : StorageBucket) (t : StorageBucket → Bool) (bs : List StorageBucket)
    → All (AreApart b) bs
    → All (AreApart b) (select t bs)
select-AreApart b t [] h = tt
select-AreApart b t (c ∷ cs) h = elim (Bool-cases (t c)) [
  | inl e ↦ rw e (h.0, select-AreApart b t cs h.1)
  | inr e ↦ rw e (select-AreApart b t cs h.1)
]

pub AreOwned-select :
    (exists exists' : Text → Bool) (next : ℕ) (b : StorageBucket) (bs : List StorageBucket)
    → AreOwned exists next bs
    → All (IsOther b) bs
    → ((m : Text) → IsBucketName m → text_eq m b.name ≡ false → exists m ≡ true → exists' m ≡ true)
    → AreOwned exists' next (select (λ c. not (c.id == b.id)) bs)
AreOwned-select exists exists' next b [] o h k = tt
AreOwned-select exists exists' next b (c ∷ cs) (low, named, there, apart, rest) h k =
    elim (Bool-cases (c.id == b.id)) [
      | inl e ↦ rw e (AreOwned-select exists exists' next b cs rest h.1 k)
      | inr e ↦ rw e (
        low,
        named,
        k c.name named (ground (arith, h.0)) there,
        select-AreApart c (λ d. not (d.id == b.id)) cs apart,
        AreOwned-select exists exists' next b cs rest h.1 k,
      )
    ]

pub name_of :
    (tenant name : Text) (b : StorageBucket) (bs : List StorageBucket)
    → find (is_bucket tenant name) bs ≡ some b
    → b.name ≡ name
name_of tenant name b bs h =
    let hit = (find-All (is_bucket tenant name) (λ c. Unit) bs b h (all_units bs)).1 in
    text_eq→eq b.name name (ground (arith, hit))
  where
    all_units : (cs : List StorageBucket) → All (λ c. Unit {0}) cs
    all_units [] = tt
    all_units (c ∷ cs) = (tt, all_units cs)
